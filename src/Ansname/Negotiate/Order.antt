-- ===== src/Ansname/Negotiate/Order.antt =====
-- `IsNewerThan` is a strict total order on the versions that can be read.
use route_ans.Prelude.{◌≡◌, true, false, ok, arith, inl, inr, Bool-cases}
use route_ans.Prelude.Int.{eq_of_parts}
use route_ans.Ansname.Record.{AnsName}
use route_ans.Ansname.Semver.{Semver, newer, is_newer_than, version_components}

pub newer_irrefl : (a : Semver) → newer a a ≡ false
unfolding newer
newer_irrefl a = ground arith

pub newer_trans : (a b c : Semver) → newer a b ≡ true → newer b c ≡ true → newer a c ≡ true
unfolding newer
newer_trans a b c h k = ground arith

pub newer_total : (a b : Semver) → newer a b ≡ false → newer b a ≡ false → a ≡ b
unfolding newer
newer_total a b h k =
    ground
      (arith, eq_of_parts a.major b.major, eq_of_parts a.minor b.minor, eq_of_parts a.patch b.patch)

-- what is not newer stays so below what is not older
pub newer_trans_not : (a b c : Semver) → newer b a ≡ false → newer c b ≡ false → newer c a ≡ false
newer_trans_not a b c h k = elim (Bool-cases (newer c a)) [
  | inr older ↦ older
  | inl above ↦ elim (Bool-cases (newer a b)) [
    | inl below ↦ cc (newer_trans c a b above below)
    | inr same ↦ cc (newer_total a b same h)
  ]
]

-- `IsNewerThan` orders the readable versions: it answers without error, never for a version and
-- itself, in both directions for none, through chains, and with `false` twice only for versions
-- with the same components.
pub is_newer_than_strict_total :
    (a b c : AnsName) {u v w : Semver}
    → version_components a ≡ ok u
    → version_components b ≡ ok v
    → version_components c ≡ ok w
    → (is_newer_than a a ≡ ok false)
      × (is_newer_than a b ≡ ok true → is_newer_than b a ≡ ok false)
      × (is_newer_than a b ≡ ok true → is_newer_than b c ≡ ok true → is_newer_than a c ≡ ok true)
      × (is_newer_than a b ≡ ok false → is_newer_than b a ≡ ok false → u ≡ v)
unfolding is_newer_than
is_newer_than_strict_total a b c {u} {v} {w} hu hv hw = (
  ground (arith, newer_irrefl u),
  λ p. elim (Bool-cases (newer v u)) [
    | inr no_more ↦ ground arith
    | inl more ↦ cc (newer_irrefl u, newer_trans u v u (ground arith) more)
  ],
  λ p q. ground (arith, newer_trans u v w),
  λ p q. newer_total u v (ground arith) (ground arith),
)

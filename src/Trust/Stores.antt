-- ===== src/Trust/Stores.antt =====
-- The trust stores of internal/trust/verifier.go: `fileProvider` and `mockProvider`. Reading a key from
-- its PEM text is a parameter.
use route_ans.Prelude.{
  ℕ, ◌||◌, true, Option, none, some, List, [], ◌∷◌, Text, codes, text_eq, Result, ok, err,
  if◌then◌else◌,
}
use route_ans.Prelude.Options.{◌>>=◌}
use route_ans.Trust.Certificate.{X509}
use route_ans.Trust.Checks.{Provider, RegistrarInfo}

-- `RegistrarInfo` with the PEM texts of its keys.
pub record StoredRegistrar : Type 0 where
  pub info : RegistrarInfo
  pub public_keys : List Text

-- `fileProvider`
pub record FileProvider : Type 0 where
  pub roots : List X509
  pub registrars : List StoredRegistrar
  pub last_refresh : ℕ

-- `Refresh` of the file provider at a time: it reads no file.
unfoldable pub refresh : ℕ → FileProvider → FileProvider
refresh now p = record p { last_refresh = now }

-- `NewFileProvider`
unfoldable pub new_file_provider : ℕ → FileProvider
new_file_provider now = refresh now (record { roots = []; registrars = []; last_refresh = 0 })

-- Calls of `Refresh`, one after the other.
unfoldable pub refreshed : List ℕ → FileProvider → FileProvider
refreshed [] p = p
refreshed (now ∷ times) p = refreshed times (refresh now p)

-- `GetRootCertificates` of the file provider
unfoldable pub root_certificates : FileProvider → Result (Unit {0}) (List X509)
root_certificates p = ok p.roots

-- `GetRootCertificates` of the mock provider
unfoldable pub mock_root_certificates : Result (Unit {0}) (List X509)
mock_root_certificates = ok []

unfoldable pub infos : List StoredRegistrar → List RegistrarInfo
infos [] = []
infos (r ∷ others) = r.info ∷ infos others

-- `parsePublicKeyPEM`: `decode` gives the type and the bytes of a PEM block, and `pkix` and `pkcs1` are
-- `x509.ParsePKIXPublicKey` and `x509.ParsePKCS1PublicKey`.
unfoldable parse_public_key_pem :
    {Key : Type 0}
    → (Text → Option (Text × Text))
    → (Text → Option Key)
    → (Text → Option Key)
    → Text
    → Option Key
parse_public_key_pem decode pkix pkcs1 pem = do
  (kind, bytes) ← decode pem
  if text_eq kind (codes "PUBLIC KEY") || text_eq kind (codes "EC PUBLIC KEY")
      then pkix bytes
      else if text_eq kind (codes "RSA PUBLIC KEY")
      then pkcs1 bytes
      else none

module _ {Key : Type 0} (parse_key : Text → Option Key) where
  -- A key that cannot be read is left out.
  unfoldable pub read_keys : List Text → List Key
  read_keys [] = []
  read_keys (pem ∷ pems) =
      let others = read_keys pems in elim (parse_key pem) [ none ↦ others | some k ↦ k ∷ others ]

  -- `GetRegistrarKeys` of the file provider
  unfoldable pub keys_of : Text → List StoredRegistrar → Result (Unit {0}) (List Key)
  keys_of id [] = err tt
  keys_of id (r ∷ others) =
      let further = keys_of id others in
      if text_eq r.info.id id then ok (read_keys r.public_keys) else further

  -- The file provider as the verifier calls it.
  unfoldable pub file_provider : FileProvider → Provider Key
  file_provider p = record {
    all_registrars = ok (infos p.registrars);
    registrar_keys = λ id. keys_of id p.registrars;
  }

  -- The mock provider: one registrar, and no keys.
  unfoldable pub mock_provider : Provider Key
  mock_provider = record {
    all_registrars = ok (record { id = codes "ra-mock"; enabled = true } ∷ []);
    registrar_keys = λ id. ok [];
  }

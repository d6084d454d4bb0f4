-- ===== src/Secrets/Raising.antt =====
-- baseplate/lib/secrets.py: what the getters raise once the file is loaded.
use baseplate_py.Prelude.{
  ◌≡◌, refl, Bool, true, false, Option, none, some, Result, ok, err, ◌>>=◌, Bytes, codes, arith,
  inl, inr, ◌⊎◌, Option-cases,
}
use baseplate_py.Secrets.{
  Attribute, text, other, Attributes, Store, Corruption, SecretsError, not_found, corrupt,
  wrong_type, wrong_encoding, lookup, is_text, encoding_of, is_ascii, need, check, get_raw,
  string_at, no_key, not_a_string, get_credentials,
}

-- The errors that the documentation of a getter allows for a path.
abbrev pub IsDocumented : Bytes → SecretsError → Type 0
IsDocumented path e = (e ≡ not_found path) ⊎ ((c : Corruption) × (e ≡ corrupt path c))

abbrev pub RaisesDocumented : {A : Type 0} → Bytes → Result SecretsError A → Type 0
RaisesDocumented path r = (e : SecretsError) → r ≡ err e → IsDocumented path e

bind-RaisesDocumented :
    {A B : Type 0} (path : Bytes) (m : Result SecretsError A) (f : A → Result SecretsError B)
    → RaisesDocumented path m
    → ((a : A) → m ≡ ok a → RaisesDocumented path (f a))
    → RaisesDocumented path (m >>= f)
bind-RaisesDocumented path (ok a) f first rest e raised = rest a refl e raised
bind-RaisesDocumented path (err x) f first rest e raised = first e cc

ok-RaisesDocumented : {A : Type 0} (path : Bytes) (a : A) → RaisesDocumented path (ok a)
ok-RaisesDocumented path a e raised = cc

need-RaisesDocumented :
    {A : Type 0} (path : Bytes) (x : SecretsError) (o : Option A)
    → IsDocumented path x
    → RaisesDocumented path (need x o)
need-RaisesDocumented path x none documented e raised =
    let same : x ≡ e = cc in rw (← same) documented
need-RaisesDocumented path x (some a) documented e raised = cc

check-RaisesDocumented :
    (path : Bytes) (b : Bool) (c : Corruption) → RaisesDocumented path (check b (corrupt path c))
check-RaisesDocumented path true c e raised = cc
check-RaisesDocumented path false c e raised = inr (c, cc)

string_at-RaisesDocumented :
    (path key : Bytes) (attributes : Attributes)
    → RaisesDocumented path (string_at path key attributes)
string_at-RaisesDocumented path key attributes e raised =
    elim (Option-cases (lookup key attributes)) [
      | inl missing ↦ inr (no_key key, ground arith)
      | inr (text t, found) ↦ absurd (ground arith)
      | inr (other b, found) ↦ inr (not_a_string key, ground arith)
    ]

get_raw-RaisesDocumented :
    (path : Bytes) (store : Store) → RaisesDocumented path (get_raw path (some store))
unfolding get_raw
get_raw-RaisesDocumented path store =
    bind-RaisesDocumented path (need (not_found path) store.secrets) _
      (need-RaisesDocumented path (not_found path) store.secrets (inl refl))
      (λ secrets _. need-RaisesDocumented path (not_found path) (lookup path secrets) (inl refl))

-- Once the file is loaded, `get_credentials` raises nothing but a SecretNotFoundError and a
-- CorruptSecretError, each for the path that was asked for.
pub get_credentials-RaisesDocumented :
    (path : Bytes) (store : Store) → RaisesDocumented path (get_credentials path (some store))
unfolding get_credentials
get_credentials-RaisesDocumented path store =
    bind-RaisesDocumented path (get_raw path (some store)) _ (get_raw-RaisesDocumented path store)
      (λ attributes _.
        let typed = is_text (codes "credential") (lookup (codes "type") attributes) in
        let encoded = is_text (codes "identity") (some (encoding_of attributes)) in
        let named = string_at path (codes "username") attributes in
        let secret = string_at path (codes "password") attributes in
        bind-RaisesDocumented path (check typed (corrupt path wrong_type)) _
          (check-RaisesDocumented path typed wrong_type)
          (λ _ _.
            bind-RaisesDocumented path (check encoded (corrupt path wrong_encoding)) _
              (check-RaisesDocumented path encoded wrong_encoding)
              (λ _ _.
                bind-RaisesDocumented path named _
                  (string_at-RaisesDocumented path (codes "username") attributes)
                  (λ username _.
                    bind-RaisesDocumented path secret _
                      (string_at-RaisesDocumented path (codes "password") attributes)
                      (λ password _.
                        ok-RaisesDocumented path
                          (record { username = username; password = password }))))))

-- Every attribute is a text of ASCII characters.
abbrev pub IsAscii : Attribute → Type 0
IsAscii (text t) = is_ascii t ≡ true
IsAscii (other _) = ⊥

abbrev pub AreAscii : Attributes → Type 0
AreAscii attributes = (key : Bytes) (a : Attribute) → lookup key attributes ≡ some a → IsAscii a

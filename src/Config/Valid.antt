-- ===== src/Config/Valid.antt =====
-- What a configuration that Load accepts can be relied on for.
use goph_keeper.Common.{
  ℕ, ◌≤◌, ◌<◌, String, Bool, true, false, ◌≡◌, refl, subst, and-left, and-right, Option, none, some,
  arith, leb, str_eq, Bool-cases, inl, inr,
}
use goph_keeper.Common.Text.{trim_space, parse_uint}
use goph_keeper.Vault.Listing.{parse_int}
use goph_keeper.Config.{
  Config, Checked, accepted, refused, ◌>>=◌, require, or_refused, setting, positive_int,
  positive_uint, positive_only, not_negative, not_empty, load, byte_length, min_jwt_secret_len,
  max_int,
}

-- A text that is not empty.
abbrev pub IsFilled : String → Type 0
IsFilled s = str_eq s "" ≡ false

-- The limits are positive, the inline threshold is no larger than the largest blob, a message's size
-- is an int, the secret has 32 bytes, and what has to be given is given.
pub record IsValid (c : Config) : Type 0 where
  pub cert : IsFilled c.grpc_tls_cert_path
  pub key : IsFilled c.grpc_tls_key_path
  pub database : IsFilled c.database_url
  pub endpoint : IsFilled c.minio_endpoint
  pub access_key : IsFilled c.minio_access_key
  pub secret_key : IsFilled c.minio_secret_key
  pub secret : min_jwt_secret_len ≤ byte_length c.jwt_secret
  pub access_ttl : 0 < c.access_ttl_sec
  pub refresh_ttl : 0 < c.refresh_ttl_sec
  pub inline : 0 < c.inline_threshold_bytes
  pub inline_fits : c.inline_threshold_bytes ≤ c.max_blob_size_bytes
  pub max_chunk : 0 < c.max_chunk_size_bytes
  pub max_message : 0 < c.grpc_max_message_bytes
  pub message_is_int : c.grpc_max_message_bytes ≤ max_int
  pub session_ttl : 0 < c.upload_session_ttl_hours

module _ {A B C : Type 0} where
  passes :
      (m : Checked A) (f : A → Checked B) (b : B)
      → (m >>= f) ≡ accepted b
      → ((a : A) → m ≡ accepted a → f a ≡ accepted b → C)
      → C
  unfolding ◌>>=◌
  passes (accepted a) f b h next = next a refl h
  passes (refused v) f b h next = absurd cc

required : (c : Bool) (v : String) (u : Unit {0}) → require c v ≡ accepted u → c ≡ true
unfolding require
required true v u h = refl
required false v u h = absurd cc

-- a test of the settings that passed
checked :
    {B C : Type 0} (c : Bool) (v : String) (f : Unit {0} → Checked B) (b : B)
    → (require c v >>= f) ≡ accepted b
    → (c ≡ true → f tt ≡ accepted b → C)
    → C
checked c v f b h next = passes (require c v) f b h λ u e k. next (required c v u e) k

positive_only_lt : (o : Option ℕ) (n : ℕ) → positive_only o ≡ some n → 0 < n
positive_only_lt none n h = absurd cc
positive_only_lt (some m) n h = ground arith

or_refused-some :
    {A : Type 0} (o : Option A) (v : String) (a : A) → or_refused o v ≡ accepted a → o ≡ some a
or_refused-some none v a h = absurd cc
or_refused-some (some b) v a h = cc

-- A setting that only takes positive numbers, and has a positive default.
abbrev TakesPositive : (String → Option ℕ) → Type 0
TakesPositive parse = (v : String) (n : ℕ) → parse v ≡ some n → 0 < n

positive_int_takes : TakesPositive positive_int
unfolding positive_int
positive_int_takes v n h = positive_only_lt (not_negative (parse_int v)) n h

positive_uint_takes : TakesPositive positive_uint
unfolding positive_uint
positive_uint_takes v n h = positive_only_lt (parse_uint v) n h

setting_positive :
    (parse : String → Option ℕ)
    → TakesPositive parse
    → (env : String → String) (key : String) (def n : ℕ) → 0 < def
    → setting parse env key def ≡ accepted n
    → 0 < n
unfolding setting
setting_positive parse takes env key def n pos h =
    elim (Bool-cases (str_eq (trim_space (env key)) "")) [
      | inl e ↦ ground (arith, e, pos)
      | inr e ↦
          takes (trim_space (env key)) n
            (or_refused-some (parse (trim_space (env key))) key n (rw e at h))
    ]

result : (a b : Config) → ◌≡◌ {A = Checked Config} (accepted a) (accepted b) → a ≡ b
result a b h = cc

at_most : (a b : ℕ) → leb a b ≡ true → a ≤ b
at_most a b h = ground arith

not_empty_filled : (s : String) → not_empty s ≡ true → IsFilled s
not_empty_filled s h = ground arith

-- Whatever the environment holds, a configuration that Load accepts is valid.
pub load-IsValid : (env : String → String) (c : Config) → load env ≡ accepted c → IsValid c
unfolding load
load-IsValid env c h = passes _ _ c h λ use_ssl _ h1. passes _ _ c h1 λ log_level _ h2.
    checked _ _ _ c h2 λ cert h3. checked _ _ _ c h3 λ key h4. checked _ _ _ c h4 λ database h5.
      checked _ _ _ c h5 λ endpoint h6. checked _ _ _ c h6 λ keys h7. checked _ _ _ c h7 λ given h8.
        checked _ _ _ c h8 λ secret h9. passes _ _ c h9 λ access_ttl e1 h10.
          passes _ _ c h10 λ refresh_ttl e2 h11. passes _ _ c h11 λ inline e3 h12.
            passes _ _ c h12 λ max_blob e4 h13. passes _ _ c h13 λ max_chunk e5 h14.
              passes _ _ c h14 λ max_message e6 h15. passes _ _ c h15 λ session_ttl e7 h16.
                passes _ _ c h16 λ interval e8 h17. checked _ _ _ c h17 λ is_int h18.
                  checked _ _ _ c h18 λ fits h19.
                    let same = result _ c h19 in
                    subst IsValid same (record {
                      cert = not_empty_filled _ cert;
                      key = not_empty_filled _ key;
                      database = not_empty_filled _ database;
                      endpoint = not_empty_filled _ endpoint;
                      access_key = not_empty_filled _ (and-left _ _ keys);
                      secret_key = not_empty_filled _ (and-right _ _ keys);
                      secret = at_most _ _ secret;
                      access_ttl =
                          setting_positive _ positive_int_takes env _ _ access_ttl (omega arith) e1;
                      refresh_ttl =
                          setting_positive _ positive_int_takes env _ _ refresh_ttl (omega arith)
                            e2;
                      inline =
                          setting_positive _ positive_uint_takes env _ _ inline (omega arith) e3;
                      inline_fits = at_most _ _ fits;
                      max_chunk =
                          setting_positive _ positive_uint_takes env _ _ max_chunk (omega arith) e5;
                      max_message =
                          setting_positive _ positive_uint_takes env _ _ max_message (omega arith)
                            e6;
                      message_is_int = at_most _ _ is_int;
                      session_ttl =
                          setting_positive _ positive_int_takes env _ _ session_ttl (omega arith)
                            e7;
                    })

-- ===== src/Reference/Validity.antt =====
-- `validate` of src/reference.rs against the rules for a record.
use core_rs.Prelude.{
  ℕ, ◌≤◌, ◌≡◌, ◌≢◌, ◌↔◌, refl, arith, [], ◌∷◌, length, if◌then◌else◌, All, Result, ok, map_err,
  bound_ok, map_err-ok,
}
use core_rs.Prelude.Bytes.{Bytes}
use core_rs.Key.{Key, parse}
use core_rs.Key.Exact.{parse_inversion}
use core_rs.Cbor.Ints.{IsI64}
use core_rs.Reference.{
  Error, bad_name, bad_key, bad_user, Reference, is_empty, name_chars, validate_name, user_chars,
  validate_user, validate_limits, validate,
}
use core_rs.Reference.Skipped.{IsShort}

abbrev pub IsUserChar : ℕ → Type 0
IsUserChar c = (0x20 ≤ c) × (c ≢ 0x7f)

abbrev pub IsNameChar : ℕ → Type 0
IsNameChar c = (c ≢ 64) × IsUserChar c

abbrev pub IsName : Bytes → Type 0
IsName s = (1 ≤ length s) × (length s ≤ 1024) × All IsNameChar s

abbrev pub IsUser : Bytes → Type 0
IsUser s = (length s ≤ 1024) × All IsUserChar s

-- The rules: an empty user is no breach of them.
pub record IsValid (r : Reference) : Type 0 where
  pub name_valid : IsName r.name
  pub key_valid : (k : Key) × (parse r.key ≡ ok k)
  pub user_valid : IsUser r.user
  pub signature_valid : length r.signature ≤ 65536
  pub public_key_valid : length r.public_key ≤ 16384

name_chars-exact : (s : Bytes) → (name_chars s ≡ ok tt) ↔ All IsNameChar s
unfolding name_chars
name_chars-exact [] = (λ e. tt, λ a. refl)
name_chars-exact (c ∷ s) = let ih = name_chars-exact s in ground (arith, ih)

user_chars-exact : (s : Bytes) → (user_chars s ≡ ok tt) ↔ All IsUserChar s
unfolding user_chars
user_chars-exact [] = (λ e. tt, λ a. refl)
user_chars-exact (c ∷ s) = let ih = user_chars-exact s in ground (arith, ih)

validate_name-exact : (s : Bytes) → (validate_name s ≡ ok tt) ↔ IsName s
unfolding validate_name
validate_name-exact s = let ih = name_chars-exact s in ground (arith, ih)

validate_user-exact : (s : Bytes) → (validate_user s ≡ ok tt) ↔ ((1 ≤ length s) × IsUser s)
unfolding validate_user
validate_user-exact s = let ih = user_chars-exact s in ground (arith, ih)

validate_limits-exact :
    (r : Reference)
    → (validate_limits r ≡ ok tt) ↔ ((length r.signature ≤ 65536) × (length r.public_key ≤ 16384))
validate_limits-exact r = ground arith

abbrev user_checked : Bytes → Result Error Unit
user_checked s = if is_empty s then ok tt else map_err (validate_user s) bad_user

user_checked-exact : (s : Bytes) → (user_checked s ≡ ok tt) ↔ IsUser s
user_checked-exact [] = (λ e. ground arith, λ u. refl)
user_checked-exact (c ∷ s) =
    let v = validate_user-exact (c ∷ s) in
    (
      λ e. (v.0 (map_err-ok (validate_user (c ∷ s)) bad_user tt e)).1,
      λ u. rw (v.1 (omega arith, u)) refl,
    )

-- `validate` accepts a record exactly when its name has 1 to 1024 bytes, none of them an at sign or a
-- control character, its key is a canonical one, its user has at most 1024 bytes and no control
-- character, and its signature and its public key are at most 64 KiB and 16 KiB long.
pub validate_exact : (r : Reference) → (validate r ≡ ok tt) ↔ IsValid r
unfolding validate
validate_exact r = (forward, backward)
  where
    forward : validate r ≡ ok tt → IsValid r
    forward e =
        let (_, (name, e1)) = bound_ok (map_err (validate_name r.name) bad_name) _ tt e in
        let (k, (key, e2)) = bound_ok (map_err (parse r.key) bad_key) _ tt e1 in
        let (_, (user, e3)) = bound_ok (user_checked r.user) _ tt e2 in
        let limits = (validate_limits-exact r).0 e3 in
        record {
          name_valid = (validate_name-exact r.name).0 (map_err-ok _ bad_name tt name);
          key_valid = (k, map_err-ok (parse r.key) bad_key k key);
          user_valid = (user_checked-exact r.user).0 user;
          signature_valid = limits.0;
          public_key_valid = limits.1;
        }

    backward : IsValid r → validate r ≡ ok tt
    backward v =
        rw
          (
            (validate_name-exact r.name).1 v.name_valid,
            v.key_valid.1,
            (user_checked-exact r.user).1 v.user_valid,
          )
          ((validate_limits-exact r).1 (v.signature_valid, v.public_key_valid))

pub IsValid-IsShort : (r : Reference) → IsValid r → IsI64 r.created_at → IsShort r
IsValid-IsShort r v time =
    let len = (parse_inversion r.key v.key_valid.0 v.key_valid.1).0 in
    record {
      name_short = omega (arith, v.name_valid.1);
      key_short = omega (arith, len);
      user_short = omega (arith, v.user_valid.0);
      time_i64 = time;
      signature_short = omega (arith, v.signature_valid);
      public_key_short = omega (arith, v.public_key_valid);
    }

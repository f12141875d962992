-- ===== src/Redirect/Plan.antt =====
-- tools/redirect_client.py: the plans that `PatchPlan` makes.
use army.Common.{
  ℕ, ◌<◌, ◌≤◌, ◌≡◌, refl, sym, arith, Bool, true, false, not, ◌&&◌, ◌==◌, List, [], ◌∷◌, length,
  All, leb, ◌≢◌, ◌⊎◌, inl, inr, Bool-cases, if◌then◌else◌,
}
use army.Common.Int.{ℤ, pos, negsuc}
use army.Common.Equality.{◌=?◌, contains, Eq, list_eq, nat_eq, and_left, and_right}
use army.Exec.{Result, ok, err, value_error}
use army.Redirect.{PatchPlan, patch_plan, is_hex, all_hex, is_digest}
use army.Redirect.Paths.{parent_name, Text, PosixPath, is_safe}

-- A digit of a lowercase hexadecimal number, by its code point.
abbrev pub IsHexDigit : ℕ → Type 0
IsHexDigit c = ((48 ≤ c) × (c ≤ 57)) ⊎ ((97 ≤ c) × (c ≤ 102))

-- The form of a SHA-256 value.
abbrev pub IsDigest : Text → Type 0
IsDigest text = (length text ≡ 64) × All IsHexDigit text

-- A path that does not lead out of its directory.
abbrev pub IsInside : PosixPath → Type 0
IsInside path = (path.absolute ≡ false) × All (λ name. name ≢ parent_name) path.parts

is_hex-IsHexDigit : (c : ℕ) → is_hex c ≡ true → IsHexDigit c
unfolding is_hex
is_hex-IsHexDigit c h = elim (Bool-cases (leb 48 c && leb c 57)) [
  | inl digit ↦ inl (ground (arith, digit), ground (arith, digit))
  | inr other ↦
      let letter : (leb 97 c && leb c 102) ≡ true = rw other at h in
      inr (ground (arith, letter), ground (arith, letter))
]

IsHexDigit-is_hex : (c : ℕ) → IsHexDigit c → is_hex c ≡ true
unfolding is_hex
IsHexDigit-is_hex c (inl digit) = ground arith
IsHexDigit-is_hex c (inr letter) = ground arith

all_hex-All : (text : Text) → all_hex text ≡ true → All IsHexDigit text
unfolding all_hex
all_hex-All [] h = tt
all_hex-All (c ∷ text) h =
    (is_hex-IsHexDigit c (and_left _ _ h), all_hex-All text (and_right (is_hex c) _ h))

All-all_hex : (text : Text) → All IsHexDigit text → all_hex text ≡ true
unfolding all_hex
All-all_hex [] h = refl
All-all_hex (c ∷ text) h = rw (IsHexDigit-is_hex c h.0) (All-all_hex text h.1)

pub is_digest-IsDigest : (text : Text) → is_digest text ≡ true → IsDigest text
unfolding is_digest
is_digest-IsDigest text h =
    let size : (length text == 64) ≡ true = and_left _ _ h in
    (ground (arith, size), all_hex-All text (and_right (length text == 64) _ h))

IsDigest-is_digest : (text : Text) → IsDigest text → is_digest text ≡ true
unfolding is_digest
IsDigest-is_digest text h = rw (h.0, All-all_hex text h.1) refl

contains-All :
    (names : List Text)
    → contains parent_name names ≡ false
    → All (λ name. name ≢ parent_name) names
contains-All [] h = tt
contains-All (name ∷ names) h = elim (Bool-cases (parent_name =? name)) [
  | inl same ↦ absurd (cc (rw same at h))
  | inr differ ↦ (
    λ same. let e : Eq Text = list_eq in absurd (cc (e.reflexive parent_name, rw same at differ)),
    contains-All names (rw differ at h),
  )
]

All-contains :
    (names : List Text)
    → All (λ name. name ≢ parent_name) names
    → contains parent_name names ≡ false
All-contains [] h = refl
All-contains (name ∷ names) h = elim (Bool-cases (parent_name =? name)) [
  | inl same ↦ let e : Eq Text = list_eq in absurd (h.0 (sym (e.sound parent_name name same)))
  | inr differ ↦ rw differ (All-contains names h.1)
]

is_safe-IsInside : (path : PosixPath) → is_safe path ≡ true → IsInside path
unfolding is_safe
is_safe-IsInside path h = (
  ground (arith, and_left (not path.absolute) _ h),
  contains-All path.parts (ground (arith, and_right (not path.absolute) _ h)),
)

IsInside-is_safe : (path : PosixPath) → IsInside path → is_safe path ≡ true
unfolding is_safe
IsInside-is_safe path h = rw (h.0, All-contains path.parts h.1) refl

-- What the checks of `PatchPlan` leave.
pub record IsPlan (plan : PatchPlan) : Type 0 where
  pub same_length : length plan.source_endpoint ≡ length plan.target_endpoint
  pub nonempty : 0 < length plan.source_endpoint
  pub original_digest : IsDigest plan.expected_original_sha256
  pub patched_digest : IsDigest plan.expected_patched_sha256

-- The arguments that the constructor accepts, but for the offset.
pub record IsAcceptable (path : PosixPath) (source target : List ℕ) (original patched : Text)
    : Type 0 where
  pub inside : IsInside path
  pub same_length : length source ≡ length target
  pub nonempty : 0 < length source
  pub original_digest : IsDigest original
  pub patched_digest : IsDigest patched

module _ (path : PosixPath) (source target : List ℕ) (original patched : Text) where
  -- The plan of these fields.
  abbrev pub plan_of : ℕ → PatchPlan
  plan_of offset = record {
    metadata_path = path.parts;
    source_endpoint = source;
    target_endpoint = target;
    expected_offset = offset;
    expected_original_sha256 = original;
    expected_patched_sha256 = patched;
  }

  -- A plan for good arguments, and ValueError for all others.
  pub data Decided (offset : ℤ) (run : Result PatchPlan) : Type 0 where
    accepted :
        (n : ℕ)
        → offset ≡ pos n
        → IsAcceptable path source target original patched
        → run ≡ ok (plan_of n)
        → Decided offset run
    negative : (n : ℕ) → offset ≡ negsuc n → run ≡ err value_error → Decided offset run
    refused :
        ¬ IsAcceptable path source target original patched
        → run ≡ err value_error
        → Decided offset run

  check-Decided :
      (offset : ℤ) (bad : Bool) (rest : Result PatchPlan)
      → (IsAcceptable path source target original patched → bad ≡ false)
      → (bad ≡ false → Decided offset rest)
      → Decided offset (if bad then err value_error else rest)
  check-Decided offset true rest good h = refused (λ a. absurd (cc (good a))) refl
  check-Decided offset false rest good h = h refl

  -- The constructor of a plan accepts exactly a relative path without "..", endpoints of one length,
  -- which is not zero, an offset that is not negative, and two hashes of 64 lowercase hexadecimal
  -- digits; the plan then has these fields. Everything else raises ValueError.
  pub patch_plan-Decided :
      (offset : ℤ) → Decided offset (patch_plan path source target offset original patched)
  unfolding patch_plan
  patch_plan-Decided (negsuc n) = negative n refl refl
  patch_plan-Decided (pos n) =
      check-Decided (pos n) (not (is_safe path)) _ (λ a. rw (IsInside-is_safe path a.inside) refl)
        (λ safe.
          check-Decided (pos n) (not (length source == length target)) _
            (λ a. ground (arith, a.same_length))
            (λ same.
              check-Decided (pos n) (length source == 0) _ (λ a. ground (arith, a.nonempty))
                (λ some_bytes.
                  check-Decided (pos n) (not (is_digest original)) _
                    (λ a. rw (IsDigest-is_digest original a.original_digest) refl)
                    (λ first.
                      check-Decided (pos n) (not (is_digest patched)) _
                        (λ a. rw (IsDigest-is_digest patched a.patched_digest) refl)
                        (λ second.
                          accepted n refl
                            (record {
                              inside = is_safe-IsInside path (ground (arith, safe));
                              same_length = ground (arith, same);
                              nonempty = ground (arith, some_bytes);
                              original_digest = is_digest-IsDigest original (ground (arith, first));
                              patched_digest = is_digest-IsDigest patched (ground (arith, second));
                            })
                            refl)))))

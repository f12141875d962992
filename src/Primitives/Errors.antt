-- ===== src/Primitives/Errors.antt =====
-- The errors of the reader of server/army3_protocol/primitives.py.
use army.Common.{
  ℕ, ◌+◌, ◌<◌, ◌≡◌, refl, arith, Bool, true, false, List, [], ◌∷◌, length, take, drop, length-drop,
  ltb, Bool-cases, not, ◌==◌, none, some, ◌⊎◌, inl, inr,
}
use army.Common.Int.{pos, leb_ℤ}
use army.Exec.{
  Error, Result, ok, err, decode_error, unicode_decode_error, Exec, pure, lift, gets, ◌>>=◌, ◌>>◌,
  raise_if, continue,
}
use army.Utf8.{utf8_decode, decode_from, utf8_step, Utf8Step, Utf8State, start, inside, in_front}
use army.Bytes.{from_bytes}
use army.Primitives.{
  ByteReader, read_exact, read_u8, read_u16, read_u32, read_string16, first, or_decode_error,
  ensure_finished, reader, remaining, read_payload,
}

-- Every error of a result is the one given.
pub record Raises {ℓ} {A : Type ℓ} (e : Error) (r : Result A) : Type ℓ where
  pub only : (x : Error) → r ≡ err x → x ≡ e

-- The action raises nothing but DecodeError.
pub record Decodes {ℓ} {A : Type ℓ} (m : Exec ByteReader A) : Type ℓ where
  pub run : (r : ByteReader) → Raises decode_error (m r).0

module _ {ℓ} {A : Type ℓ} where
  pub ok-Raises : (e : Error) (a : A) → Raises e (ok a)
  ok-Raises e a = record { only = λ x eq. cc eq }

  pub err-Raises : (e : Error) → Raises {A = A} e (err e)
  err-Raises e = record { only = λ x eq. cc eq }

pub Decodes-pure {ℓ} : {A : Type ℓ} (a : A) → Decodes (pure a)
Decodes-pure a = record { run = λ r. ok-Raises decode_error a }

pub Decodes-raise_if : (test : Bool) → Decodes (raise_if test decode_error)
Decodes-raise_if true = record { run = λ r. err-Raises decode_error }
Decodes-raise_if false = record { run = λ r. ok-Raises decode_error tt }

pub Decodes-gets {ℓ} : {A : Type ℓ} (f : ByteReader → A) → Decodes (gets f)
Decodes-gets f = record { run = λ r. ok-Raises decode_error (f r) }

module _ {ℓ κ} {A : Type ℓ} {B : Type κ} (m : Exec ByteReader A) (f : A → Exec ByteReader B) where
  continue_run :
      (res : Result A) (r : ByteReader)
      → Raises decode_error res
      → ((a : A) → Decodes (f a))
      → Raises decode_error (continue res f r).0
  continue_run (ok a) r h hf = (hf a).run r
  continue_run (err e) r h hf = rw (h.only e refl) (err-Raises decode_error)

  pub Decodes-bind : Decodes m → ((a : A) → Decodes (f a)) → Decodes (m >>= f)
  Decodes-bind hm hf = record { run = λ r. continue_run (m r).0 (m r).1 (hm.run r) hf }

pub Decodes-exact : (n : ℕ) → Decodes (read_exact (pos n))
unfolding read_exact
Decodes-exact n = record {
  run = λ r. elim (Bool-cases (ltb (length r.bytes) (r.offset + n))) [
    | inl e ↦ rw e (err-Raises decode_error)
    | inr e ↦ rw e (ok-Raises decode_error (take n (drop r.offset r.bytes)))
  ];
}

first_one : (bs : List ℕ) → 0 < length bs → Raises decode_error (first (take 1 bs))
unfolding first
first_one [] h = absurd (omega (arith, h))
first_one (b ∷ bs) h = ok-Raises decode_error (pos b)

pub Decodes-u8 : Decodes read_u8
unfolding read_u8 read_exact
Decodes-u8 = record {
  run = λ r. elim (Bool-cases (ltb (length r.bytes) (r.offset + 1))) [
    | inl e ↦ rw e (err-Raises decode_error)
    | inr e ↦
        rw e (first_one (drop r.offset r.bytes) (ground (arith, length-drop r.offset r.bytes)))
  ];
}

pub Decodes-u16 : Decodes read_u16
unfolding read_u16
Decodes-u16 = Decodes-bind _ _ (Decodes-exact 2) (λ bs. Decodes-pure _)

pub Decodes-u32 : Decodes read_u32
unfolding read_u32
Decodes-u32 = Decodes-bind _ _ (Decodes-exact 4) (λ bs. Decodes-pure _)

in_front-Raises :
    (e : Error) (xs : List ℕ) (r : Result (List ℕ)) → Raises e r → Raises e (in_front xs r)
in_front-Raises e xs (ok ys) h = ok-Raises e _
in_front-Raises e xs (err x) h = rw (h.only x refl) (err-Raises e)

step_cases :
    (o : Utf8Step) → (o ≡ none) ⊎ ((s : Utf8State) × (chars : List ℕ) × (o ≡ some (s, chars)))
step_cases none = inl refl
step_cases (some (s, chars)) = inr (s, chars, refl)

decode_from-Raises : (s : Utf8State) (bs : List ℕ) → Raises unicode_decode_error (decode_from s bs)
unfolding decode_from
decode_from-Raises start [] = ok-Raises unicode_decode_error []
decode_from-Raises (inside more so_far low high) [] = err-Raises unicode_decode_error
decode_from-Raises start (b ∷ bytes) = elim (step_cases (utf8_step start b)) [
  | inl e ↦ rw (decode_from, e) (err-Raises unicode_decode_error)
  | inr (s', chars, e) ↦
      rw (decode_from, e)
        (in_front-Raises unicode_decode_error chars (decode_from s' bytes)
          (decode_from-Raises s' bytes))
]
decode_from-Raises (inside more so_far low high) (b ∷ bytes) =
    elim (step_cases (utf8_step (inside more so_far low high) b)) [
      | inl e ↦ rw (decode_from, e) (err-Raises unicode_decode_error)
      | inr (s', chars, e) ↦
          rw (decode_from, e)
            (in_front-Raises unicode_decode_error chars (decode_from s' bytes)
              (decode_from-Raises s' bytes))
    ]

translated :
    (r : Result (List ℕ)) → Raises unicode_decode_error r → Raises decode_error (or_decode_error r)
unfolding or_decode_error
translated (ok text) h = ok-Raises decode_error text
translated (err e) h = rw (h.only e refl) (err-Raises decode_error)

-- What is left of `read_string16` behind the size.
abbrev text_after : ℕ → Exec ByteReader (List ℕ)
text_after size = do
  limit ← gets (λ r. r.max_string_bytes)
  raise_if (not (leb_ℤ (pos size) limit)) decode_error
  raw ← read_exact (pos size)
  lift (or_decode_error (utf8_decode raw))

raw_text : (raw : List ℕ) → Decodes (lift (or_decode_error (utf8_decode raw)))
unfolding utf8_decode
raw_text raw = record {
  run = λ r. translated (decode_from start raw) (decode_from-Raises start raw);
}

Decodes-text_after : (size : ℕ) → Decodes (text_after size)
Decodes-text_after size = record {
  run = λ r.
      (Decodes-bind (raise_if (not (leb_ℤ (pos size) r.max_string_bytes)) decode_error)
          (λ x. read_exact (pos size) >>= λ raw. lift (or_decode_error (utf8_decode raw)))
          (Decodes-raise_if (not (leb_ℤ (pos size) r.max_string_bytes)))
          (λ x. Decodes-bind (read_exact (pos size)) _ (Decodes-exact size) raw_text)).run
        r;
}

string16-eq :
    (r : ByteReader)
    → (read_string16 r).0 ≡ ((read_exact (pos 2) >>= λ bs. text_after (from_bytes bs)) r).0
unfolding read_string16 read_u16
string16-eq r = let (res, r') = read_exact (pos 2) r in same res r'
  where
    same :
        (res : Result (List ℕ)) (r' : ByteReader)
        → (((λ (r : ByteReader). (res, r')) >>= (λ bs. pure (pos (from_bytes bs))) >>= (λ size. do
          limit ← gets (λ r. r.max_string_bytes)
          raise_if (not (leb_ℤ size limit)) decode_error
          raw ← read_exact size
          lift (or_decode_error (utf8_decode raw))))
            r).0
          ≡ (continue res (λ bs. text_after (from_bytes bs)) r').0
    same (ok bs) r' = refl
    same (err e) r' = refl

pub Decodes-string16 : Decodes read_string16
Decodes-string16 = record {
  run = λ r. rw (string16-eq r) (
      (Decodes-bind (read_exact (pos 2)) (λ bs. text_after (from_bytes bs)) (Decodes-exact 2)
          (λ bs. Decodes-text_after (from_bytes bs))).run
        r);
}

pub Decodes-ensure : Decodes ensure_finished
unfolding ensure_finished
Decodes-ensure = record { run = λ r. (Decodes-raise_if (not (remaining r == 0))).run r }

pub read_payload-Raises {ℓ} :
    {A : Type ℓ} (m : Exec ByteReader A) (bs : List ℕ)
    → Decodes m
    → Raises decode_error (read_payload m bs)
read_payload-Raises m bs h = h.run (reader bs)

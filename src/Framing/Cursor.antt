-- ===== src/Framing/Cursor.antt =====
-- Runs of data bytes under a cursor that may be missing, framing.py.
use army.Common.{ℕ, zero, suc, ◌<◌, ◌≡◌, refl, Option, none, some, List, [], ◌∷◌, length, ◌∙◌}
use army.Bytes.{IsBytes}
use army.Exec.{ok}
use army.Transform.{TransformCursor, encode_data, decode_data}
use army.Transform.Valid.{IsCursor, mask, skip, xor_next-eq, next, next-IsCursor}
use army.Transform.Valid.{reveal, hide, mask-mask, length-mask, skip-IsCursor}
use army.Transform.Valid.{reveal-IsByte, hide-IsByte, reveal-hide, mask-IsBytes}
use army.Framing.{encode_each, decode_each}

-- With a valid cursor and bytes, both loops are the mask of the key.
pub encode_each-eq :
    (bs : List ℕ) (c : TransformCursor)
    → IsCursor c
    → IsBytes bs
    → encode_each bs c ≡ (ok (mask c bs), skip (length bs) c)
unfolding encode_each encode_data mask skip
encode_each-eq [] c v h = refl
encode_each-eq (b ∷ bs) c v h =
    rw (xor_next-eq b c v h.0, encode_each-eq bs (next c) (next-IsCursor c v) h.1)

pub decode_each-eq :
    (bs : List ℕ) (c : TransformCursor)
    → IsCursor c
    → IsBytes bs
    → decode_each bs c ≡ (ok (mask c bs), skip (length bs) c)
unfolding decode_each decode_data mask skip
decode_each-eq [] c v h = refl
decode_each-eq (b ∷ bs) c v h =
    rw (xor_next-eq b c v h.0, decode_each-eq bs (next c) (next-IsCursor c v) h.1)

-- The same without a cursor: the bytes as they are.
abbrev pub HasCursor : Option TransformCursor → Type 0
HasCursor none = Unit {0}
HasCursor (some c) = IsCursor c

abbrev pub unmask : Option TransformCursor → List ℕ → List ℕ
unmask none bs = bs
unmask (some c) bs = mask c bs

abbrev pub skip? : ℕ → Option TransformCursor → Option TransformCursor
skip? n none = none
skip? n (some c) = some (skip n c)

abbrev pub next? : Option TransformCursor → Option TransformCursor
next? none = none
next? (some c) = some (next c)

abbrev pub reveal? : Option TransformCursor → ℕ → ℕ
reveal? none raw = raw
reveal? (some c) raw = reveal c raw

abbrev pub hide? : Option TransformCursor → ℕ → ℕ
hide? none command = command
hide? (some c) command = hide c command

pub reveal?-IsByte :
    (c : Option TransformCursor) (raw : ℕ) → HasCursor c → raw < 256 → reveal? c raw < 256
reveal?-IsByte none raw v h = h
reveal?-IsByte (some c) raw v h = reveal-IsByte c v raw

pub hide?-IsByte :
    (c : Option TransformCursor) (command : ℕ) → HasCursor c → command < 256 → hide? c command < 256
hide?-IsByte none command v h = h
hide?-IsByte (some c) command v h = hide-IsByte c v command

pub reveal?-hide? :
    (c : Option TransformCursor) (command : ℕ)
    → HasCursor c
    → command < 256
    → reveal? c (hide? c command) ≡ command
reveal?-hide? none command v h = refl
reveal?-hide? (some c) command v h = reveal-hide c v command h

pub unmask-unmask : (c : Option TransformCursor) (bs : List ℕ) → unmask c (unmask c bs) ≡ bs
unmask-unmask none bs = refl
unmask-unmask (some c) bs = mask-mask c bs

pub length-unmask : (c : Option TransformCursor) (bs : List ℕ) → length (unmask c bs) ≡ length bs
length-unmask none bs = refl
length-unmask (some c) bs = length-mask c bs

pub unmask-IsBytes :
    (c : Option TransformCursor) (bs : List ℕ) → HasCursor c → IsBytes bs → IsBytes (unmask c bs)
unmask-IsBytes none bs v h = h
unmask-IsBytes (some c) bs v h = mask-IsBytes c bs v h

pub next?-HasCursor : (c : Option TransformCursor) → HasCursor c → HasCursor (next? c)
next?-HasCursor none v = tt
next?-HasCursor (some c) v = next-IsCursor c v

pub skip?-HasCursor : (n : ℕ) (c : Option TransformCursor) → HasCursor c → HasCursor (skip? n c)
skip?-HasCursor n none v = tt
skip?-HasCursor n (some c) v = skip-IsCursor n c v

-- Two cursors over one key, or none on both sides.
abbrev pub SameKey : Option TransformCursor → Option TransformCursor → Type 0
SameKey none none = Unit {0}
SameKey (some a) (some b) = b.transform ≡ a.transform
SameKey _ _ = ⊥

skip-transform : (n : ℕ) (c : TransformCursor) → (skip n c).transform ≡ c.transform
unfolding skip next
skip-transform zero c = refl
skip-transform (suc n) c = skip-transform n (next c)

pub SameKey-next? : (c : Option TransformCursor) → SameKey c (next? c)
unfolding next
SameKey-next? none = tt
SameKey-next? (some c) = refl

pub SameKey-skip? : (n : ℕ) (a b : Option TransformCursor) → SameKey a b → SameKey a (skip? n b)
SameKey-skip? n none none h = tt
SameKey-skip? n none (some b) h = h
SameKey-skip? n (some a) none h = h
SameKey-skip? n (some a) (some b) h = skip-transform n b ∙ h

-- ===== src/Base/BigBytes.antt =====
-- `SetBytes` and `Bytes` of math/big: a natural number as big-endian bytes.
use go_conflux_sdk.Base.{
  ℕ, zero, suc, ◌+◌, ◌*◌, ◌/◌, ◌%◌, ◌<◌, ◌≡◌, refl, [], ◌∷◌, ◌++◌, arith, Bytes, AllBytes,
  append_assoc, append-nil, ◌==◌, if◌then◌else◌, Bool-cases, inl, inr, sym, ap, ◌∙◌,
}

-- x.SetBytes(buf)
unfoldable pub set_bytes_from : ℕ → Bytes → ℕ
set_bytes_from n [] = n
set_bytes_from n (b ∷ bs) = set_bytes_from (n * 256 + b) bs

unfoldable pub set_bytes : Bytes → ℕ
unfolding set_bytes_from
set_bytes bs = set_bytes_from 0 bs

-- x.Bytes(): no leading zero, and nothing for 0. `fuel` bounds the digits; n of them are enough.
pub bytes_from : ℕ → ℕ → Bytes → Bytes
bytes_from zero n out = out
bytes_from (suc fuel) n out =
    let rest = bytes_from fuel (n / 256) ((n % 256) ∷ out) in if n == 0 then out else rest

unfoldable pub bytes : ℕ → Bytes
unfolding bytes_from
bytes n = bytes_from n n []

-- Leading zeros removed.
abbrev pub trim : Bytes → Bytes
trim [] = []
trim (zero ∷ bs) = trim bs
trim (suc b ∷ bs) = suc b ∷ bs

bytes_from-fuel :
    (f g n : ℕ) (out : Bytes) → n < suc f → n < suc g → bytes_from f n out ≡ bytes_from g n out
unfolding bytes_from
bytes_from-fuel zero zero n out p q = refl
bytes_from-fuel zero (suc g) n out p q = ground arith
bytes_from-fuel (suc f) zero n out p q = ground arith
bytes_from-fuel (suc f) (suc g) n out p q =
    ground (arith, bytes_from-fuel f g (n / 256) ((n % 256) ∷ out))

-- A new lowest digit goes to the end of the bytes.
bytes_from_step :
    (f g n b : ℕ) (out : Bytes)
    → b < 256
    → 0 < n * 256 + b
    → n * 256 + b < suc f
    → n < suc g
    → bytes_from f (n * 256 + b) out ≡ bytes_from g n (b ∷ out)
unfolding bytes_from
bytes_from_step zero g n b out hb h p q = absurd (omega arith)
bytes_from_step (suc f) g n b out hb h p q =
    let d : (n * 256 + b) / 256 ≡ n = omega arith in
    let m : (n * 256 + b) % 256 ≡ b = omega arith in
    rw (d, m) (ground (arith, bytes_from-fuel f g n (b ∷ out)))

bytes_from-append : (f n : ℕ) (out : Bytes) → bytes_from f n out ≡ bytes_from f n [] ++ out
unfolding bytes_from
bytes_from-append zero n out = refl
bytes_from-append (suc f) n out = elim (Bool-cases (n == 0)) [
  | inl e ↦ rw e
  | inr e ↦ rw (
    e,
    bytes_from-append f (n / 256) ((n % 256) ∷ out),
    bytes_from-append f (n / 256) ((n % 256) ∷ []),
    append_assoc,
  )
]

bytes_step : (n b : ℕ) → b < 256 → 0 < n * 256 + b → bytes (n * 256 + b) ≡ bytes n ++ b ∷ []
unfolding bytes
bytes_step n b hb h =
    bytes_from_step (n * 256 + b) n n b [] hb h (omega arith) (omega arith)
    ∙ bytes_from-append n n (b ∷ [])

bytes-set_bytes_from :
    (bs : Bytes) (n : ℕ) → 0 < n → AllBytes bs → bytes (set_bytes_from n bs) ≡ bytes n ++ bs
unfolding set_bytes_from
bytes-set_bytes_from [] n h _ = sym (append-nil (bytes n))
bytes-set_bytes_from (b ∷ bs) n h (hb, hbs) =
    bytes-set_bytes_from bs (n * 256 + b) (omega arith) hbs
    ∙ rw (bytes_step n b hb (omega arith), append_assoc)

pub bytes_one : (b : ℕ) → suc b < 256 → bytes (suc b) ≡ suc b ∷ []
bytes_one b h =
    let e : 0 * 256 + suc b ≡ suc b = omega arith in
    ap bytes (sym e) ∙ bytes_step 0 (suc b) h (omega arith) ∙ unfold bytes in refl

-- Reading bytes and writing them again loses the leading zeros and nothing else.
pub bytes-set_bytes : (bs : Bytes) → AllBytes bs → bytes (set_bytes bs) ≡ trim bs
unfolding set_bytes set_bytes_from
bytes-set_bytes [] _ = unfold bytes in refl
bytes-set_bytes (zero ∷ bs) (_, h) = bytes-set_bytes bs h
bytes-set_bytes (suc b ∷ bs) (hb, h) =
    let e : 0 * 256 + suc b ≡ suc b = omega arith in
    rw e (
      bytes-set_bytes_from bs (suc b) (omega arith) h
      ∙ ap (λ (t : Bytes). t ++ bs) (bytes_one b hb))

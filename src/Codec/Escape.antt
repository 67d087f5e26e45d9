-- ===== src/Codec/Escape.antt =====
-- `escapeString` and `unEscapeString` of database/record.go.
use atomix_db.Prelude.{
  ℕ, suc, ◌+◌, ◌≤◌, ◌<◌, ◌≡◌, refl, sym, ap, ◌∙◌, ◌⊎◌, inl, inr, true, false, [], ◌∷◌, ◌++◌, ok,
  panic, ◌>>=◌, leb, ◌==◌, if◌then◌else◌, lt→ltb, lt→leb_false, le→leb, ==_iff, ne→==_false, length,
  length-append, append_assoc, append-nil, Bool-cases, cut, arith,
}
use mathlib.Core.Logic.{◌≢◌}
use atomix_db.Bytes.{Bytes, make_bytes}
use atomix_db.Bytes.Le.{overwrite_at}
use atomix_db.Codec.{put_byte, count_byte, escape_loop, escape_into, escape_string}
use atomix_db.Tree.Leaf.{length-make_bytes}

-- What one byte becomes, and the whole string.
abbrev pub escaped_byte : ℕ → Bytes
escaped_byte c = if leb c 1 then 1 ∷ (c + 1) ∷ [] else c ∷ []

unfoldable pub escaped : Bytes → Bytes
escaped [] = []
escaped (c ∷ s) = escaped_byte c ++ escaped s

abbrev pub IsByte : ℕ → Type 0
IsByte b = b < 256

-- The first byte is not one that `escapeString` and `unEscapeString` treat apart.
abbrev pub IsPlain : Bytes → Type 0
IsPlain [] = Unit
IsPlain (c ∷ s) = c < 0xfe

pub put_byte_at :
    (done : Bytes) (x : ℕ) (free : Bytes) (pos v : ℕ)
    → pos ≡ length done
    → put_byte (done ++ (x ∷ free)) pos v ≡ ok ((done ++ (v ∷ [])) ++ free)
unfolding put_byte
put_byte_at done x free pos v e =
    rw (lt→ltb pos (length (done ++ (x ∷ free))) (omega (arith, length-append done (x ∷ free)))) (
      ap ok (
        overwrite_at done (x ∷ []) free (v ∷ []) pos refl e refl
        ∙ sym (append_assoc done (v ∷ []) free)))

put_byte_full : (done : Bytes) (pos v : ℕ) → length done ≤ pos → put_byte done pos v ≡ panic
unfolding put_byte
put_byte_full done pos v h = ground arith

escape_loop_low :
    (c : ℕ) (s done free : Bytes) (x y pos : ℕ)
    → leb c 1 ≡ true
    → pos ≡ length done
    → escape_loop (c ∷ s) (done ++ (x ∷ y ∷ free)) pos
      ≡ escape_loop s ((done ++ (1 ∷ (c + 1) ∷ [])) ++ free) (pos + 2)
unfolding escape_loop
escape_loop_low c s done free x y pos low e =
    rw
      (
        low,
        escape_loop,
        put_byte_at done x (y ∷ free) pos 1 e,
        put_byte_at (done ++ (1 ∷ [])) y free (pos + 1) (c + 1)
            (omega (arith, length-append done (1 ∷ []))),
      )
      (ap (λ b. escape_loop s (b ++ free) (pos + 2)) (append_assoc done (1 ∷ []) ((c + 1) ∷ [])))

escape_loop_high :
    (c : ℕ) (s done free : Bytes) (x pos : ℕ)
    → leb c 1 ≡ false
    → pos ≡ length done
    → escape_loop (c ∷ s) (done ++ (x ∷ free)) pos
      ≡ escape_loop s ((done ++ (c ∷ [])) ++ free) (pos + 1)
unfolding escape_loop
escape_loop_high c s done free x pos high e =
    rw (high, escape_loop, put_byte_at done x free pos c e) refl

-- The loop writes the escaped bytes over the free part, where they fit.
escape_loop_lem :
    (s done free : Bytes) (pos : ℕ)
    → pos ≡ length done
    → length free ≡ length (escaped s)
    → escape_loop s (done ++ free) pos ≡ ok (done ++ escaped s)
unfolding escaped
escape_loop_lem [] done [] pos e h = unfold escape_loop in refl
escape_loop_lem [] done (x ∷ free) pos e h = absurd (omega arith)
escape_loop_lem (c ∷ s) done free pos e h =
    step free (Bool-cases (leb c 1)) h (λ b f p k l. escape_loop_lem s b f p k l)
  where
    step :
        (free : Bytes)
        → (leb c 1 ≡ true) ⊎ (leb c 1 ≡ false)
        → length free ≡ length (escaped_byte c ++ escaped s)
        → ((b f : Bytes) (p : ℕ)
            → p ≡ length b
            → length f ≡ length (escaped s)
            → escape_loop s (b ++ f) p ≡ ok (b ++ escaped s))
        → escape_loop (c ∷ s) (done ++ free) pos ≡ ok (done ++ (escaped_byte c ++ escaped s))
    step [] (inl low) h ih = absurd (omega (arith, rw low at h))
    step (x ∷ []) (inl low) h ih = absurd (omega (arith, rw low at h))
    step (x ∷ y ∷ free) (inl low) h ih =
        escape_loop_low c s done free x y pos low e
        ∙ ih (done ++ (1 ∷ (c + 1) ∷ [])) free (pos + 2)
            (omega (arith, length-append done (1 ∷ (c + 1) ∷ []))) (omega (arith, rw low at h))
        ∙ rw low (ap ok (append_assoc done (1 ∷ (c + 1) ∷ []) (escaped s)))
    step [] (inr high) h ih = absurd (omega (arith, rw high at h))
    step (x ∷ free) (inr high) h ih =
        escape_loop_high c s done free x pos high e
        ∙ ih (done ++ (c ∷ [])) free (pos + 1) (omega (arith, length-append done (c ∷ [])))
            (omega (arith, rw high at h))
        ∙ rw high (ap ok (append_assoc done (c ∷ []) (escaped s)))

-- Where they do not fit, an index is out of range.
escape_loop_full :
    (s done free : Bytes) (pos : ℕ)
    → pos ≡ length done
    → length free < length (escaped s)
    → escape_loop s (done ++ free) pos ≡ panic
unfolding escaped
escape_loop_full [] done free pos e h = absurd (omega arith)
escape_loop_full (c ∷ s) done free pos e h =
    step free (Bool-cases (leb c 1)) h (λ b f p k l. escape_loop_full s b f p k l)
  where
    step :
        (free : Bytes)
        → (leb c 1 ≡ true) ⊎ (leb c 1 ≡ false)
        → length free < length (escaped_byte c ++ escaped s)
        → ((b f : Bytes) (p : ℕ)
            → p ≡ length b
            → length f < length (escaped s)
            → escape_loop s (b ++ f) p ≡ panic)
        → escape_loop (c ∷ s) (done ++ free) pos ≡ panic
    step [] (inl low) h ih =
        unfold escape_loop in
        rw (low, escape_loop, append-nil, put_byte_full done pos 1 (omega arith)) refl
    step (x ∷ []) (inl low) h ih =
        unfold escape_loop in
        rw
          (
            low,
            escape_loop,
            put_byte_at done x [] pos 1 e,
            append-nil,
            put_byte_full (done ++ (1 ∷ [])) (pos + 1) (c + 1)
                (omega (arith, length-append done (1 ∷ []))),
          )
          refl
    step (x ∷ y ∷ free) (inl low) h ih =
        escape_loop_low c s done free x y pos low e
        ∙ ih (done ++ (1 ∷ (c + 1) ∷ [])) free (pos + 2)
            (omega (arith, length-append done (1 ∷ (c + 1) ∷ []))) (omega (arith, rw low at h))
    step [] (inr high) h ih =
        unfold escape_loop in
        rw (high, escape_loop, append-nil, put_byte_full done pos c (omega arith)) refl
    step (x ∷ free) (inr high) h ih =
        escape_loop_high c s done free x pos high e
        ∙ ih (done ++ (c ∷ [])) free (pos + 1) (omega (arith, length-append done (c ∷ [])))
            (omega (arith, rw high at h))

unfoldable pub low_count : Bytes → ℕ
low_count s = count_byte 0 s + count_byte 1 s

pub length-escaped : (s : Bytes) → length (escaped s) ≡ length s + low_count s
unfolding escaped low_count count_byte
length-escaped [] = omega arith
length-escaped (c ∷ s) =
    length-append (escaped_byte c) (escaped s) ∙ ground (arith, length-escaped s)

pub escaped_same : (s : Bytes) → low_count s ≡ 0 → escaped s ≡ s
unfolding escaped low_count count_byte
escaped_same [] h = refl
escaped_same (c ∷ s) h = ground (arith, escaped_same s)

make_bytes_free : (n : ℕ) → length ([] ++ make_bytes n) ≡ n
make_bytes_free n = length-make_bytes n

escape_into_lem : (s : Bytes) → IsPlain s → escape_into s (length s + low_count s) ≡ ok (escaped s)
unfolding escape_into
escape_into_lem [] plain =
    escape_loop_lem [] [] (make_bytes (0 + low_count [])) 0 refl
      (length-make_bytes (0 + low_count []) ∙ sym (length-escaped []))
escape_into_lem (c ∷ s) plain =
    let size = suc (length s) + low_count (c ∷ s) in
    rw (lt→leb_false 0xfe c plain) (
      escape_loop_lem (c ∷ s) [] (make_bytes size) 0 refl
        (length-make_bytes size ∙ sym (length-escaped (c ∷ s))))

-- `escapeString` escapes each byte for itself, where the first is below 0xfe.
pub escape_string_lem : (s : Bytes) → IsPlain s → escape_string s ≡ ok (escaped s)
unfolding escape_string
escape_string_lem s plain = elim (Bool-cases (count_byte 0 s + count_byte 1 s == 0)) [
  | inl none_low ↦ rw none_low (
      ap ok (
        sym (
          escaped_same s
            (unfold low_count in (==_iff (count_byte 0 s + count_byte 1 s) 0).0 none_low))))
  | inr some_low ↦ rw some_low (unfold low_count in escape_into_lem s plain)
]

marked_count :
    (c : ℕ) (s : Bytes) → 0xfe ≤ c → count_byte 0 (c ∷ s) + count_byte 1 (c ∷ s) ≡ low_count s
unfolding low_count count_byte
marked_count c s marked = ground arith

-- The loop behind a marked first byte, in a buffer that is one byte short.
marked_loop :
    (c : ℕ) (s b more : Bytes) (size : ℕ)
    → make_bytes size ≡ b ++ more
    → length b ≡ 2
    → length more < length (escaped s)
    → (put_byte (make_bytes size) 0 0xfe >>= λ out₁.
        put_byte out₁ 1 c >>= λ out₂. escape_loop s out₂ 2)
      ≡ panic
marked_loop c s [] more size e two short = absurd (omega arith)
marked_loop c s (x ∷ []) more size e two short = absurd (omega arith)
marked_loop c s (x ∷ y ∷ []) more size e two short =
    rw (e, put_byte_at [] x (y ∷ more) 0 0xfe refl, put_byte_at (0xfe ∷ []) y more 1 c refl)
      (escape_loop_full s (0xfe ∷ c ∷ []) more 2 refl short)
marked_loop c s (x ∷ y ∷ z ∷ b) more size e two short = absurd (omega arith)

-- `escapeString` panics on a string whose first byte is 0xfe at least and that has a byte 0 or 1
-- behind it.
pub escape_string_panics :
    (c : ℕ) (s : Bytes)
    → 0xfe ≤ c
    → count_byte 0 s + count_byte 1 s ≢ 0
    → escape_string (c ∷ s) ≡ panic
unfolding escape_string escape_into
escape_string_panics c s marked some_low =
    let low = count_byte 0 (c ∷ s) + count_byte 1 (c ∷ s) in
    let same : low ≡ low_count s = marked_count c s marked in
    let some : low ≢ 0 = λ e. some_low (unfold low_count in sym same ∙ e) in
    let (b, more, split, count) =
      cut 2 (make_bytes (suc (length s) + low))
        (omega (arith, length-make_bytes (suc (length s) + low))) in
    rw (ne→==_false low 0 some, le→leb 0xfe c marked)
      (marked_loop c s b more (suc (length s) + low) split (sym count) (
        omega (
          arith,
          ap length split,
          length-append b more,
          length-make_bytes (suc (length s) + low),
          length-escaped s,
        )))

-- ===== src/Codec/Unescape.antt =====
-- `unEscapeString` of database/record.go undoes `escapeString`.
use atomix_db.Prelude.{
  ℕ, suc, ◌+◌, ◌-◌, ◌%◌, ◌≤◌, ◌≡◌, refl, sym, ap, ◌∙◌, inl, inr, true, false, [], ◌∷◌, ◌++◌, ok,
  leb, ◌==◌, if◌then◌else◌, ne→==_false, ==_iff, length, length-append, append_assoc, Bool-cases,
  arith,
}
use mathlib.Core.Logic.{◌≢◌}
use atomix_db.Bytes.{Bytes, make_bytes}
use atomix_db.Codec.{count_byte, escape_count, unescape_loop, unescape_string}
use atomix_db.Codec.Escape.{IsPlain, escaped, low_count, length-escaped, escaped_same, put_byte_at}
use atomix_db.Tree.Leaf.{length-make_bytes}

escape_count_high : (c : ℕ) (t : Bytes) → c ≢ 1 → escape_count (c ∷ t) ≡ escape_count t
unfolding escape_count
escape_count_high c [] h = refl
escape_count_high c (b ∷ t) h = rw (ne→==_false c 1 h, escape_count) refl

escape_count_low : (c : ℕ) (t : Bytes) → escape_count (1 ∷ c ∷ t) ≡ suc (escape_count t)
unfolding escape_count
escape_count_low c t = refl

low_count_low : (c : ℕ) (s : Bytes) → leb c 1 ≡ true → low_count (c ∷ s) ≡ suc (low_count s)
unfolding low_count count_byte
low_count_low c s h = ground arith

low_count_high : (c : ℕ) (s : Bytes) → leb c 1 ≡ false → low_count (c ∷ s) ≡ low_count s
unfolding low_count count_byte
low_count_high c s h = ground arith

unescape_loop_high :
    (c : ℕ) (t done free : Bytes) (x pos : ℕ)
    → c ≢ 1
    → pos ≡ length done
    → unescape_loop (c ∷ t) (done ++ (x ∷ free)) pos
      ≡ unescape_loop t ((done ++ (c ∷ [])) ++ free) (pos + 1)
unfolding unescape_loop
unescape_loop_high c [] done free x pos h e = put_byte_at done x free pos c e
unescape_loop_high c (b ∷ t) done free x pos h e =
    rw (ne→==_false c 1 h, unescape_loop, put_byte_at done x free pos c e) refl

unescape_loop_low :
    (c : ℕ) (t done free : Bytes) (x pos : ℕ)
    → c ≤ 1
    → pos ≡ length done
    → unescape_loop (1 ∷ (c + 1) ∷ t) (done ++ (x ∷ free)) pos
      ≡ unescape_loop t ((done ++ (c ∷ [])) ++ free) (pos + 1)
unfolding unescape_loop
unescape_loop_low c t done free x pos h e =
    let back : (c + 1 + 255) % 256 ≡ c = omega arith in
    rw (back, put_byte_at done x free pos c e) refl

escape_count-escaped : (s : Bytes) → escape_count (escaped s) ≡ low_count s
unfolding escaped
escape_count-escaped [] = unfold escape_count low_count count_byte in refl
escape_count-escaped (c ∷ s) =
    let ih = escape_count-escaped s in
    elim (Bool-cases (leb c 1)) [
      | inl low ↦
          rw low (escape_count_low (c + 1) (escaped s) ∙ ap suc ih ∙ sym (low_count_low c s low))
      | inr high ↦
          rw high
            (escape_count_high c (escaped s) (ground arith) ∙ ih ∙ sym (low_count_high c s high))
    ]

unescape_loop-escaped :
    (s done free : Bytes) (pos : ℕ)
    → pos ≡ length done
    → length free ≡ length s
    → unescape_loop (escaped s) (done ++ free) pos ≡ ok (done ++ s)
unfolding escaped
unescape_loop-escaped [] done [] pos e h = unfold unescape_loop in refl
unescape_loop-escaped [] done (x ∷ free) pos e h = absurd (omega arith)
unescape_loop-escaped (c ∷ s) done [] pos e h = absurd (omega arith)
unescape_loop-escaped (c ∷ s) done (x ∷ free) pos e h =
    let ih =
      unescape_loop-escaped s (done ++ (c ∷ [])) free (pos + 1)
        (omega (arith, length-append done (c ∷ []))) (omega arith)
      ∙ ap ok (append_assoc done (c ∷ []) s) in
    elim (Bool-cases (leb c 1)) [
      | inl low ↦ rw low (unescape_loop_low c (escaped s) done free x pos (ground arith) e ∙ ih)
      | inr high ↦ rw high (unescape_loop_high c (escaped s) done free x pos (ground arith) e ∙ ih)
    ]

-- `unEscapeString` on a string that does not begin with the mark 0xfe.
unescape_plain :
    (a : ℕ) (t : Bytes)
    → a ≢ 0xfe
    → unescape_string (a ∷ t) ≡ (
        if escape_count (a ∷ t) == 0
        then ok (a ∷ t)
        else unescape_loop (a ∷ t) (make_bytes (suc (length t) - escape_count (a ∷ t))) 0)
unfolding unescape_string
unescape_plain a t h = ground (arith, ne→==_false a 0xfe h)

unescape_headed :
    (a : ℕ) (t s : Bytes) → a ≢ 0xfe → escaped s ≡ a ∷ t → unescape_string (a ∷ t) ≡ ok s
unescape_headed a t s plain e =
    let count : escape_count (a ∷ t) ≡ low_count s =
      ap escape_count (sym e) ∙ escape_count-escaped s in
    let size : suc (length t) - low_count s ≡ length s =
      omega (arith, ap length e, length-escaped s) in
    rw (unescape_plain a t plain, count, size)
      (elim (Bool-cases (low_count s == 0)) [
        | inl none_low ↦
            rw none_low (ap ok (sym e ∙ escaped_same s ((==_iff (low_count s) 0).0 none_low)))
        | inr some_low ↦
            rw (some_low, ← e)
              (unescape_loop-escaped s [] (make_bytes (length s)) 0 refl
                (length-make_bytes (length s)))
      ])

-- A string whose first byte is below 0xfe comes back from its escaped form.
pub unescape-escaped : (s : Bytes) → IsPlain s → unescape_string (escaped s) ≡ ok s
unfolding escaped
unescape-escaped [] plain = unfold unescape_string in refl
unescape-escaped (c ∷ s) plain = elim (Bool-cases (leb c 1)) [
  | inl low ↦ rw low (unescape_headed 1 ((c + 1) ∷ escaped s) (c ∷ s) (omega arith) (rw low refl))
  | inr high ↦ rw high (unescape_headed c (escaped s) (c ∷ s) (omega arith) (rw high refl))
]

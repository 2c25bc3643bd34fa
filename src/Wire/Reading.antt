-- ===== src/Wire/Reading.antt =====
-- `_read_exact` in terms of what the stream holds, however it is cut into pieces.
use mathlib.Core.List.{append_assoc}
use native.Mathlib.Numerals.{unary_clauses}
use model_shard.Prelude.{
  ℕ, zero, suc, ◌+◌, ◌-◌, ◌≤◌, ◌<◌, ◌≡◌, refl, sym, ap, ◌∙◌, true, false, List, [], ◌∷◌, ◌++◌,
  length, take, drop, leb, nat_equals, if◌then◌else◌, length-append, length-take, append_nil, arith,
  inl, inr, Bool-cases,
}
use model_shard.Prelude.Bytes.{Bytes}
use model_shard.Wire.Frame.{
  ok, eof_error, Stream, Pieces, after_chunk, read_loop, read_exact, read_some,
}

sum : (k m : ℕ) → suc k + m ≡ suc (k + m)
sum k m = omega arith

module _ {ℓ} {A : Type ℓ} where
  pub take-add : (k m : ℕ) (xs : List A) → take (k + m) xs ≡ take k xs ++ take m (drop k xs)
  take-add zero m xs = ap (λ (n : ℕ). take n xs) (omega arith)
  take-add (suc k) zero [] = simp unary_clauses refl
  take-add (suc k) (suc m) [] = simp unary_clauses refl
  take-add (suc k) m (x ∷ xs) =
      ap (λ (n : ℕ). take n (x ∷ xs)) (sum k m) ∙ ap (λ ys. x ∷ ys) (take-add k m xs)

  pub drop-add : (k m : ℕ) (xs : List A) → drop (k + m) xs ≡ drop m (drop k xs)
  drop-add zero m xs = ap (λ (n : ℕ). drop n xs) (omega arith)
  drop-add (suc k) zero [] = simp unary_clauses refl
  drop-add (suc k) (suc m) [] = simp unary_clauses refl
  drop-add (suc k) m (x ∷ xs) = ap (λ (n : ℕ). drop n (x ∷ xs)) (sum k m) ∙ drop-add k m xs

  pub length-drop : (k : ℕ) (xs : List A) → length (drop k xs) ≡ length xs - k
  length-drop zero xs = omega arith
  length-drop (suc k) [] = omega arith
  length-drop (suc k) (x ∷ xs) = omega (arith, length-drop k xs)

module _ (p : Pieces) where
  abbrev got : ℕ → Stream → Bytes
  got d s = take (p.size s.reads d) s.ahead

  -- One round of the loop, with `d` bytes wanted.
  read_loop_round :
      (fuel n d : ℕ) (buf : Bytes) (s : Stream)
      → length buf + d ≡ n
      → 0 < d
      → read_loop p (suc fuel) n buf s ≡ (
          if nat_equals (length (got d s)) 0
          then eof_error
          else read_loop p fuel n (buf ++ got d s) (after_chunk p d s))
  unfolding read_loop
  read_loop_round fuel n d buf s e wanted =
      let short : leb n (length buf) ≡ false = ground (arith, e, wanted) in
      let left : n - length buf ≡ d = omega (arith, e) in rw (short, left) refl

  length-got : (d : ℕ) (s : Stream) → d ≤ length s.ahead → length (got d s) ≡ p.size s.reads d
  length-got d s there =
      omega (arith, length-take (p.size s.reads d) s.ahead, p.at_most s.reads d, there)

  got-whole :
      (d : ℕ) (s : Stream)
      → got d s ++ take (d - p.size s.reads d) (drop (p.size s.reads d) s.ahead) ≡ take d s.ahead
  got-whole d s =
      let k = p.size s.reads d in
      let whole : k + (d - k) ≡ d = omega (arith, p.at_most s.reads d) in
      sym (take-add k (d - k) s.ahead) ∙ ap (λ (m : ℕ). take m s.ahead) whole

  drop-whole :
      (d : ℕ) (s : Stream)
      → drop (d - p.size s.reads d) (drop (p.size s.reads d) s.ahead) ≡ drop d s.ahead
  drop-whole d s =
      let k = p.size s.reads d in
      let whole : k + (d - k) ≡ d = omega (arith, p.at_most s.reads d) in
      sym (drop-add k (d - k) s.ahead) ∙ ap (λ (m : ℕ). drop m s.ahead) whole

  -- `d` more bytes are wanted, and the stream holds them.
  read_loop-reads :
      (fuel n d : ℕ) (buf : Bytes) (s : Stream)
      → length buf + d ≡ n
      → d < fuel
      → d ≤ length s.ahead
      → (t : Stream) × (read_loop p fuel n buf s ≡ ok (buf ++ take d s.ahead, t))
        × (t.ahead ≡ drop d s.ahead)
  unfolding read_loop
  read_loop-reads zero n d buf s e fuel_left there = absurd (omega (arith, fuel_left))
  read_loop-reads (suc fuel) n zero buf s e fuel_left there =
      let full : leb n (length buf) ≡ true = ground (arith, e) in
      (s, rw full (ap (λ b. ok (b, s)) (sym (append_nil buf))), refl)
  read_loop-reads (suc fuel) n (suc d) buf s e fuel_left there =
      let first : 0 < p.size s.reads (suc d) = p.positive s.reads (suc d) (omega arith) in
      let most = p.at_most s.reads (suc d) in
      let size = length-got (suc d) s there in
      let some_got : nat_equals (length (got (suc d) s)) 0 ≡ false = ground (arith, size, first) in
      let (t, ran, left) =
        read_loop-reads fuel n (suc d - p.size s.reads (suc d)) (buf ++ got (suc d) s)
          (after_chunk p (suc d) s)
          (omega (arith, length-append buf (got (suc d) s), size, most, e))
          (omega (arith, first, fuel_left))
          (omega (arith, length-drop (p.size s.reads (suc d)) s.ahead, there, most)) in
      (
        t,
        read_loop_round fuel n (suc d) buf s e (omega arith)
            ∙ rw some_got refl
            ∙ ran
            ∙ ap (λ bytes. ok (bytes, t))
                (append_assoc buf (got (suc d) s) _
                  ∙ ap (λ bytes. buf ++ bytes) (got-whole (suc d) s)),
        left ∙ drop-whole (suc d) s,
      )

  -- Too few bytes: the loop ends with the error.
  read_loop-ends :
      (fuel n d : ℕ) (buf : Bytes) (s : Stream)
      → length buf + d ≡ n
      → d < fuel
      → length s.ahead < d
      → read_loop p fuel n buf s ≡ eof_error
  read_loop-ends zero n d buf s e fuel_left few = absurd (omega (arith, fuel_left))
  read_loop-ends (suc fuel) n d buf s e fuel_left few =
      let k = p.size s.reads d in
      let most = p.at_most s.reads d in
      read_loop_round fuel n d buf s e (omega (arith, few))
      ∙ elim (Bool-cases (nat_equals (length (got d s)) 0)) [
        | inl none_got ↦ rw none_got refl
        | inr some_got ↦ rw some_got (
            read_loop-ends fuel n (d - length (got d s)) (buf ++ got d s) (after_chunk p d s)
              (omega (arith, length-append buf (got d s), length-take k s.ahead, most, few, e))
              (ground (arith, some_got, fuel_left, length-take k s.ahead, most, few))
              (ground (arith, length-drop k s.ahead, length-take k s.ahead, most, few)))
      ]

  -- `_read_exact` gives the next `n` bytes when they come, however they are cut.
  pub read_exact-reads :
      (n : ℕ) (s : Stream)
      → n ≤ length s.ahead
      → (t : Stream) × (read_exact p n s ≡ ok (take n s.ahead, t)) × (t.ahead ≡ drop n s.ahead)
  unfolding read_exact
  read_exact-reads n s there = read_loop-reads (n + 1) n n [] s (omega arith) (omega arith) there

  pub read_exact-ends : (n : ℕ) (s : Stream) → length s.ahead < n → read_exact p n s ≡ eof_error
  unfolding read_exact
  read_exact-ends n s few = read_loop-ends (n + 1) n n [] s (omega arith) (omega arith) few

  pub read_some-reads :
      (n : ℕ) (s : Stream)
      → n ≤ length s.ahead
      → (t : Stream) × (read_some p n s ≡ ok (take n s.ahead, t)) × (t.ahead ≡ drop n s.ahead)
  unfolding read_some
  read_some-reads zero s there = (s, refl, refl)
  read_some-reads (suc n) s there = read_exact-reads (suc n) s there

  pub read_some-ends : (n : ℕ) (s : Stream) → length s.ahead < n → read_some p n s ≡ eof_error
  unfolding read_some
  read_some-ends zero s few = absurd (omega (arith, few))
  read_some-ends (suc n) s few = read_exact-ends (suc n) s few

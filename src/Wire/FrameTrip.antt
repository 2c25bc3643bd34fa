-- ===== src/Wire/FrameTrip.antt =====
-- Frames come back as they were written, and a frame that is cut off is an EOFError.
use mathlib.Core.List.{append_assoc, head-eq_of_cons-eq, tail-eq_of_cons-eq}
use model_shard.Prelude.{
  ℕ, ◌≤◌, ◌<◌, ◌≡◌, refl, sym, ap, ◌∙◌, true, List, [], ◌∷◌, ◌++◌, length, take, drop,
  length-append, append_nil, arith, ◌⊎◌, inl, inr, Bool-cases, ltb,
}
use model_shard.Prelude.Bytes.{Bytes, is_u32, be_bytes, be_value, be_value-be_bytes}
use model_shard.Wire.Frame.{
  Outcome, ok, eof_error, Stream, Pieces, Reader, and_then, read_exact, read_some, read_frame,
  write_frame,
}
use model_shard.Wire.Reading.{read_exact-reads, read_exact-ends, read_some-reads, read_some-ends}

compare_nat : (m n : ℕ) → (m < n) ⊎ (n ≤ m)
compare_nat m n = elim (Bool-cases (ltb m n)) [
  | inl is_less ↦ inl (ground (arith, is_less))
  | inr is_more ↦ inr (ground (arith, is_more))
]

module _ {ℓ} {A : Type ℓ} where
  take_front : (xs ys : List A) → take (length xs) (xs ++ ys) ≡ xs
  take_front [] ys = refl
  take_front (x ∷ xs) ys = ap (λ zs. x ∷ zs) (take_front xs ys)

  drop_front : (xs ys : List A) → drop (length xs) (xs ++ ys) ≡ ys
  drop_front [] ys = refl
  drop_front (x ∷ xs) ys = drop_front xs ys

abbrev pub prefixed : Bytes → Bytes
prefixed bytes = be_bytes (length bytes) ++ bytes

four : (a b c d out : Bytes) → (out ++ a ++ b) ++ c ++ d ≡ out ++ ((a ++ b) ++ (c ++ d))
four a b c d out = simp append_assoc refl

-- What `write_frame` puts on the stream.
abbrev pub frame : Bytes → Bytes → Bytes
frame msg tensor = prefixed msg ++ prefixed tensor

pub write_frame-frame :
    (msg tensor out : Bytes)
    → is_u32 (length msg) ≡ true
    → is_u32 (length tensor) ≡ true
    → write_frame msg tensor out ≡ (out ++ frame msg tensor, true)
unfolding write_frame
write_frame-frame msg tensor out h k =
    rw (h, k)
      (ap (λ bytes. (bytes, true))
        (four (be_bytes (length msg)) msg (be_bytes (length tensor)) tensor out))

module _ {A B : Type 0} where
  bind-ok :
      {o : Outcome (A × Stream)} (f : A → Reader B) {t : Stream} {a : A}
      {result : Outcome (B × Stream)}
      → o ≡ ok (a, t)
      → f a t ≡ result
      → and_then o f ≡ result
  unfolding and_then
  bind-ok f h k = ap (λ o. and_then o f) h ∙ k

  bind-eof :
      {o : Outcome (A × Stream)} (f : A → Reader B) → o ≡ eof_error → and_then o f ≡ eof_error
  unfolding and_then
  bind-eof f h = ap (λ o. and_then o f) h

module _ (p : Pieces) where
  -- One length and its bytes.
  pub read_part :
      (bytes rest : Bytes) (s : Stream)
      → is_u32 (length bytes) ≡ true
      → s.ahead ≡ prefixed bytes ++ rest
      → (u : Stream) × (t : Stream) × (read_exact p 4 s ≡ ok (be_bytes (length bytes), u))
        × (read_some p (be_value (be_bytes (length bytes))) u ≡ ok (bytes, t))
        × (t.ahead ≡ rest)
  read_part bytes rest s small e =
      let head = be_bytes (length bytes) in
      let split : s.ahead ≡ head ++ (bytes ++ rest) = e ∙ append_assoc head bytes rest in
      let (u, head_read, u_left) = read_exact-reads p 4 s (omega (arith, ap length split)) in
      let u_is : u.ahead ≡ bytes ++ rest = u_left ∙ ap (λ bs. drop 4 bs) split in
      let (t, bytes_read, t_left) =
        read_some-reads p (length bytes) u
          (omega (arith, ap length u_is, length-append bytes rest)) in
      (
        u,
        t,
        head_read ∙ ap (λ bs. ok (bs, u)) (ap (λ bs. take 4 bs) split),
        ap (λ n. read_some p n u) (be_value-be_bytes (length bytes) small)
            ∙ bytes_read
            ∙ ap (λ bs. ok (bs, t)) (ap (take (length bytes)) u_is ∙ take_front bytes rest),
        t_left ∙ ap (drop (length bytes)) u_is ∙ drop_front bytes rest,
      )

  -- What `write_frame` puts on a stream, `read_frame` takes off it, whatever pieces the stream gives:
  -- the two parts, when their lengths fit in four bytes, and the stream stands at what follows.
  pub read_frame-write_frame :
      (msg tensor rest : Bytes) (s : Stream)
      → is_u32 (length msg) ≡ true
      → is_u32 (length tensor) ≡ true
      → s.ahead ≡ (write_frame msg tensor []).0 ++ rest
      → (t : Stream) × (read_frame p s ≡ ok ((msg, tensor), t)) × (t.ahead ≡ rest)
  unfolding read_frame
  read_frame-write_frame msg tensor rest s h k e =
      let written : s.ahead ≡ frame msg tensor ++ rest =
        e ∙ ap (λ w. w.0 ++ rest) (write_frame-frame msg tensor [] h k) in
      let (u, m, msg_head, msg_read, m_left) =
        read_part msg (prefixed tensor ++ rest) s h
          (written ∙ append_assoc (prefixed msg) (prefixed tensor) rest) in
      let (v, t, tensor_head, tensor_read, left) = read_part tensor rest m k m_left in
      (
        t,
        bind-ok _ msg_head
            (bind-ok _ msg_read (bind-ok _ tensor_head (bind-ok _ tensor_read refl))),
        left,
      )

module _ {ℓ} {A : Type ℓ} where
  -- A list that starts `front ++ …` after more is added, and is as long as `front`, starts with it.
  front_of :
      (front more xs cut : List A)
      → xs ++ cut ≡ front ++ more
      → length front ≤ length xs
      → (rest : List A) × (xs ≡ front ++ rest) × (rest ++ cut ≡ more)
  front_of [] more xs cut e long = (xs, refl, e)
  front_of (f ∷ front) more [] cut e long = absurd (omega (arith, long))
  front_of (f ∷ front) more (x ∷ xs) cut e long =
      let (rest, same, after) =
        front_of front more xs cut (tail-eq_of_cons-eq e) (omega (arith, long)) in
      (rest, λ i. head-eq_of_cons-eq e i ∷ same i, after)

module _ (p : Pieces) where
  -- A stream that ends inside a length and its bytes.
  part-ends :
      (bytes more cut : Bytes) (s : Stream)
      → is_u32 (length bytes) ≡ true
      → s.ahead ++ cut ≡ prefixed bytes ++ more
      → length s.ahead < length (prefixed bytes)
      → (read_exact p 4 s ≡ eof_error)
        ⊎ ((u : Stream) × (read_exact p 4 s ≡ ok (be_bytes (length bytes), u))
            × (read_some p (be_value (be_bytes (length bytes))) u ≡ eof_error))
  part-ends bytes more cut s small e short = elim (compare_nat (length s.ahead) 4) [
    | inl few ↦ inl (read_exact-ends p 4 s few)
    | inr enough ↦
        let head = be_bytes (length bytes) in
        let (rest, same, after) =
          front_of head (bytes ++ more) s.ahead cut (e ∙ append_assoc head bytes more) enough in
        let (u, head_read, left) = read_exact-reads p 4 s enough in
        let u_is : u.ahead ≡ rest = left ∙ ap (drop 4) same in
        inr (
          u,
          head_read ∙ ap (λ bs. ok (bs, u)) (ap (take 4) same),
          ap (λ n. read_some p n u) (be_value-be_bytes (length bytes) small)
              ∙ read_some-ends p (length bytes) u
                  (omega (arith, short, ap length u_is, ap length same)),
        )
  ]

  -- A stream that holds less than a whole frame, at whatever point it is cut off, makes `read_frame`
  -- end with the EOFError: it neither returns a part of the message nor keeps reading.
  pub read_frame-truncated :
      (msg tensor cut : Bytes) (s : Stream)
      → is_u32 (length msg) ≡ true
      → is_u32 (length tensor) ≡ true
      → s.ahead ++ cut ≡ (write_frame msg tensor []).0
      → 0 < length cut
      → read_frame p s ≡ eof_error
  unfolding read_frame
  read_frame-truncated msg tensor cut s h k e cut_off =
      let written : s.ahead ++ cut ≡ prefixed msg ++ prefixed tensor =
        e ∙ ap (λ w. w.0) (write_frame-frame msg tensor [] h k) in
      elim (compare_nat (length s.ahead) (length (prefixed msg))) [
        | inl short ↦ elim (part-ends msg (prefixed tensor) cut s h written short) [
          | inl head ↦ bind-eof _ head
          | inr (u, head, ends) ↦ bind-ok _ head (bind-eof _ ends)
        ]
        | inr enough ↦
            let (rest, same, after) =
              front_of (prefixed msg) (prefixed tensor) s.ahead cut written enough in
            let (u, m, msg_head, msg_read, m_left) = read_part p msg rest s h same in
            elim (part-ends tensor [] cut m k
              (ap (λ bs. bs ++ cut) m_left ∙ after ∙ sym (append_nil _))
              (omega (
                arith,
                ap length e,
                length-append s.ahead cut,
                ap length same,
                length-append (prefixed msg) rest,
                ap length m_left,
                ap length after,
                length-append rest cut,
                cut_off,
              ))) [
                | inl head ↦ bind-ok _ msg_head (bind-ok _ msg_read (bind-eof _ head))
                | inr (v, head, ends) ↦
                    bind-ok _ msg_head (bind-ok _ msg_read (bind-ok _ head (bind-eof _ ends)))
              ]
      ]

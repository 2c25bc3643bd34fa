-- ===== src/Wire/Frame.antt =====
-- src/model_shard/transport.py: frames with two length prefixes, on a stream that gives its bytes in
-- pieces.
use model_shard.Prelude.{
  ℕ, zero, suc, ◌+◌, ◌-◌, ◌≤◌, ◌<◌, Bool, true, false, [], ◌++◌, length, take, drop, leb,
  nat_equals, if◌then◌else◌,
}
use model_shard.Prelude.Bytes.{Bytes, is_u32, be_bytes, be_value}

-- A call: its value, or the EOFError of a stream that ends, or no result because the loop ran out of
-- rounds, which the program has no counterpart of.
pub data Outcome {ℓ} (A : Type ℓ) : Type ℓ where
  ok : A → Outcome A
  eof_error : Outcome A
  out_of_fuel : Outcome A

-- What is still to come, and how many reads there were.
pub record Stream : Type 0 where
  pub ahead : Bytes
  pub reads : ℕ

-- How many of `n` bytes the `i`-th read gives: at least one, when some are asked for and there.
pub record Pieces : Type 0 where
  pub size : ℕ → ℕ → ℕ
  pub positive : (i n : ℕ) → 0 < n → 0 < size i n
  pub at_most : (i n : ℕ) → size i n ≤ n

abbrev pub Reader : Type 0 → Type 0
Reader A = Stream → Outcome (A × Stream)

-- What a call's outcome goes on with.
unfoldable pub and_then :
    {A B : Type 0} → Outcome (A × Stream) → (A → Reader B) → Outcome (B × Stream)
and_then (ok (a, s)) f = f a s
and_then eof_error f = eof_error
and_then out_of_fuel f = out_of_fuel

infixl 5 ◌>>=◌
abbrev pub ◌>>=◌ : {A B : Type 0} → Reader A → (A → Reader B) → Reader B
(m >>= f) s = and_then (m s) f

abbrev pub pure : {A : Type 0} → A → Reader A
pure a s = ok (a, s)

module _ (p : Pieces) where
  -- stream.read(n), and what it leaves
  abbrev pub chunk : ℕ → Stream → Bytes
  chunk n s = take (p.size s.reads n) s.ahead

  abbrev pub after_chunk : ℕ → Stream → Stream
  after_chunk n s = record { ahead = drop (p.size s.reads n) s.ahead; reads = s.reads + 1 }

  -- The loop of `_read_exact`, each round of which gets a byte or ends.
  unfoldable pub read_loop : ℕ → ℕ → Bytes → Reader Bytes
  read_loop zero n buf s = out_of_fuel
  read_loop (suc fuel) n buf s =
      let wanted = n - length buf in
      let got = chunk wanted s in
      let rest = read_loop fuel n (buf ++ got) (after_chunk wanted s) in
      if leb n (length buf)
      then ok (buf, s)
      else if nat_equals (length got) 0
      then eof_error
      else rest

  unfoldable pub read_exact : ℕ → Reader Bytes
  unfolding read_loop
  read_exact n = read_loop (n + 1) n []

  -- _read_exact(stream, n) if n else b""
  unfoldable pub read_some : ℕ → Reader Bytes
  unfolding read_exact
  read_some zero = pure []
  read_some (suc n) = read_exact (suc n)

  unfoldable pub read_frame : Reader (Bytes × Bytes)
  read_frame = do
    msg_head ← read_exact 4
    msg ← read_some (be_value msg_head)
    tensor_head ← read_exact 4
    tensor ← read_some (be_value tensor_head)
    pure (msg, tensor)

-- What a write leaves on the stream, and whether it returned; struct.pack raises on a length that does
-- not fit, after what was written before.
unfoldable pub write_frame : Bytes → Bytes → Bytes → Bytes × Bool
write_frame msg tensor out =
    if is_u32 (length msg)
    then (let sent = out ++ be_bytes (length msg) ++ msg in
        if is_u32 (length tensor)
        then (sent ++ be_bytes (length tensor) ++ tensor, true)
        else (sent, false))
    else (out, false)

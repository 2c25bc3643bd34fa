-- ===== src/Wire/Samples.antt =====
-- A stream that gives at most three bytes a read.
use model_shard.Prelude.{ℕ, ◌≡◌, refl, ◌∷◌, [], ◌++◌, leb, if◌then◌else◌, arith}
use model_shard.Prelude.Bytes.{Bytes}
use model_shard.Wire.Frame.{ok, eof_error, Stream, Pieces, read_frame, write_frame}
use model_shard.Wire.FrameTrip.{read_frame-write_frame, read_frame-truncated}

three : ℕ → ℕ → ℕ
three i n = if leb n 3 then n else 3

abbrev by_threes : Pieces
unfolding three
by_threes = record {
  size = three;
  positive = λ i n h. ground (arith, h);
  at_most = λ i n. ground arith;
}

abbrev message : Bytes
message = 11 ∷ 12 ∷ 13 ∷ 14 ∷ 15 ∷ []

abbrev logits : Bytes
logits = 0 ∷ 255 ∷ []

abbrev both : Stream
unfolding write_frame
both = record { ahead = (write_frame message logits []).0 ++ (7 ∷ []); reads = 0 }

abbrev cut_short : Stream
cut_short = record { ahead = 0 ∷ 0 ∷ 0 ∷ 5 ∷ 11 ∷ 12 ∷ []; reads = 0 }

read_frame-write_frame_example :
    (t : Stream) × (read_frame by_threes both ≡ ok ((message, logits), t)) × (t.ahead ≡ 7 ∷ [])
unfolding write_frame both
read_frame-write_frame_example =
    read_frame-write_frame by_threes message logits (7 ∷ []) both refl refl refl

read_frame-truncated_example : read_frame by_threes cut_short ≡ eof_error
unfolding write_frame
read_frame-truncated_example =
    read_frame-truncated by_threes message logits (13 ∷ 14 ∷ 15 ∷ 0 ∷ 0 ∷ 0 ∷ 2 ∷ 0 ∷ 255 ∷ [])
      cut_short refl refl refl (omega arith)

-- ===== src/Storage/Replay/Termination.antt =====
-- The loop of `replay` ends on every file: each round that goes on has consumed a byte.
use ad_graph_db.Base.{
  ℕ, zero, suc, ◌≤◌, ◌≡◌, refl, List, [], ◌∷◌, Bool, length, arith, ◌⊎◌, inl, inr,
}
use ad_graph_db.Core.{Text, Result, ok, err}
use ad_graph_db.Storage.Codec.{RecordData, read_u32, decode_record}
use ad_graph_db.Storage.Codec.Progress.{length-rest-le, read_u32-Shrinks, decode_record-Shrinks}
use ad_graph_db.Storage.Replay.{
  Replayed, Round, stop, go_on, finish_round, replay_round, replay_loop,
}

finish_round-rest :
    (bytes : List ℕ) (d : Result RecordData) (c : Result ℕ) (rest : List ℕ) (s : Replayed)
    {rest' : List ℕ} {s' : Replayed}
    → finish_round bytes d c rest s ≡ go_on rest' s'
    → rest' ≡ rest
unfolding finish_round
finish_round-rest bytes d (err x) rest s h = cc
finish_round-rest bytes (ok r) (ok c) rest s h = ground arith
finish_round-rest bytes (err x) (ok c) rest s h = ground arith

Round-cases : (r : Round) → (r ≡ stop) ⊎ ((rest : List ℕ) × (s : Replayed) × (r ≡ go_on rest s))
Round-cases stop = inl refl
Round-cases (go_on rest s) = inr (rest, s, refl)

-- A finite run of the loop, from the bytes that are left and the state to the last state: it ends where
-- no byte is left or a round breaks, and behind a round that goes on comes the run on what that leaves.
pub data Runs (is_utf8 : Text → Bool) : List ℕ → Replayed → Replayed → Type 0 where
  at_end : (s : Replayed) → Runs is_utf8 [] s s
  broken :
      (t : ℕ) (bytes : List ℕ) (s : Replayed)
      → replay_round is_utf8 t bytes s ≡ stop
      → Runs is_utf8 (t ∷ bytes) s s
  round :
      (t : ℕ) (bytes rest : List ℕ) (s s' last : Replayed)
      → replay_round is_utf8 t bytes s ≡ go_on rest s'
      → Runs is_utf8 rest s' last
      → Runs is_utf8 (t ∷ bytes) s last

module _ (is_utf8 : Text → Bool) where
  -- A round leaves no more than the bytes behind the type byte.
  pub replay_round-le :
      (t : ℕ) (bytes : List ℕ) (s : Replayed) {rest : List ℕ} {s' : Replayed}
      → replay_round is_utf8 t bytes s ≡ go_on rest s'
      → length rest ≤ length bytes
  unfolding replay_round
  replay_round-le t bytes s h =
      let behind = (decode_record is_utf8 t bytes).1 in
      let e =
        finish_round-rest (t ∷ bytes) (decode_record is_utf8 t bytes).0 (read_u32 behind).0
          (read_u32 behind).1 s h in
      rw e (
        omega (
          arith,
          length-rest-le (decode_record-Shrinks is_utf8 t) bytes,
          length-rest-le read_u32-Shrinks behind,
        ))

  -- On every byte string and in every state, the loop of the source makes a finite run of rounds and ends,
  -- and the model's loop, on any fuel at least the number of bytes, returns the state that this run ends
  -- in: it never stops for want of fuel.
  pub replay_loop-Runs :
      (n : ℕ) (bytes : List ℕ) (s : Replayed)
      → length bytes ≤ n
      → Runs is_utf8 bytes s (replay_loop is_utf8 n bytes s)
  unfolding replay_loop
  replay_loop-Runs zero [] s le = at_end s
  replay_loop-Runs (suc n) [] s le = at_end s
  replay_loop-Runs zero (t ∷ bytes) s le = absurd (omega arith)
  replay_loop-Runs (suc n) (t ∷ bytes) s le = elim (Round-cases (replay_round is_utf8 t bytes s)) [
    | inl ends ↦ rw (ends, replay_loop) (broken t bytes s ends)
    | inr (rest, s', more) ↦
        let small = replay_round-le t bytes s more in
        rw (more, replay_loop)
          (round t bytes rest s s' (replay_loop is_utf8 n rest s') more
            (replay_loop-Runs n rest s' (omega arith)))
  ]

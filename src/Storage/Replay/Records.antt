-- ===== src/Storage/Replay/Records.antt =====
-- Replaying the bytes of a log is applying its records in order.
use mathlib.Core.List.{foldl, append_assoc}
use ad_graph_db.Base.{
  ℕ, zero, suc, ◌-◌, ◌<◌, ◌≤◌, ◌≡◌, refl, ap, List, [], ◌∷◌, ◌++◌, Bool, false, length, take, arith,
  length-append, ltb, beq_refl, nat_eq, list_eq,
}
use ad_graph_db.Core.{Text, ok}
use ad_graph_db.Storage.Bytes.{take-append, length-to_le, to_le, from_le}
use ad_graph_db.Storage.Checksum.{adler32, adler32-lt}
use ad_graph_db.Storage.Codec.{RecordData, write_u32, with_checksum}
use ad_graph_db.Storage.Codec.Words.{read_u32-write_u32}
use ad_graph_db.Storage.Codec.Records.{
  encode, record_type, payload, encode-eq, IsRecord, decode_record-payload,
}
use ad_graph_db.Storage.Replay.{
  Replayed, no_records, apply_record, header, go_on, finish_round, replay_round, replay_loop,
  replay_bytes,
}

unfoldable pub encode_all : List RecordData → List ℕ
encode_all [] = []
encode_all (r ∷ log) = encode r ++ encode_all log

-- What a log stands for, with no bytes in sight.
abbrev pub apply_all : List RecordData → Replayed → Replayed
apply_all log s = foldl (λ t r. apply_record r t) s log

abbrev pub AreRecords : (Text → Bool) → List RecordData → Type 0
AreRecords is_utf8 [] = Unit
AreRecords is_utf8 (r ∷ log) = IsRecord is_utf8 r × AreRecords is_utf8 log

length-write_u32 : (v : ℕ) → length (write_u32 v) ≡ 4
unfolding write_u32
length-write_u32 v = length-to_le 4 v

-- The slice between the start of a record and its checksum.
checked_slice :
    (bytes csum rest : List ℕ)
    → length csum ≡ 4
    → take (length (bytes ++ (csum ++ rest)) - length rest - 4) (bytes ++ (csum ++ rest)) ≡ bytes
checked_slice bytes csum rest h =
    let count : length (bytes ++ (csum ++ rest)) - length rest - 4 ≡ length bytes =
      omega (arith, length-append bytes (csum ++ rest), length-append csum rest) in
    rw (count) (take-append bytes (csum ++ rest))

module _ (is_utf8 : Text → Bool) where
  -- One round of the loop over the bytes of a record applies it and stands behind it.
  pub replay_round-encode :
      (r : RecordData)
      → IsRecord is_utf8 r
      → (rest : List ℕ) (s : Replayed)
      → replay_round is_utf8
          (record_type r)
          (payload r ++ (write_u32 (adler32 (record_type r ∷ payload r)) ++ rest))
          s
        ≡ go_on rest (apply_record r s)
  unfolding replay_round finish_round
  replay_round-encode r h rest s =
      let body = record_type r ∷ payload r in
      let csum = write_u32 (adler32 body) in
      rw (
        decode_record-payload is_utf8 r h (csum ++ rest),
        read_u32-write_u32 (adler32 body) (adler32-lt body) rest,
        checked_slice body csum rest (length-write_u32 (adler32 body)),
        beq_refl (adler32 body),
      )

  encode-append :
      (r : RecordData) (rest : List ℕ)
      → encode r ++ rest
        ≡ record_type r ∷ (payload r ++ (write_u32 (adler32 (record_type r ∷ payload r)) ++ rest))
  unfolding with_checksum
  encode-append r rest = rw (encode-eq r) (
      append_assoc (record_type r ∷ payload r) (write_u32 (adler32 (record_type r ∷ payload r)))
        rest)

  pub replay_loop-encode :
      (r : RecordData)
      → IsRecord is_utf8 r
      → (rest : List ℕ) (fuel : ℕ) (s : Replayed)
      → replay_loop is_utf8 (suc fuel) (encode r ++ rest) s
        ≡ replay_loop is_utf8 fuel rest (apply_record r s)
  unfolding replay_loop
  replay_loop-encode r h rest fuel s =
      rw (encode-append r rest, replay_round-encode r h rest s, replay_loop)

  length-encode : (r : RecordData) (rest : List ℕ) → length rest < length (encode r ++ rest)
  length-encode r rest =
      let csum = write_u32 (adler32 (record_type r ∷ payload r)) in
      rw (encode-append r rest)
        (omega (arith, length-append (payload r) (csum ++ rest), length-append csum rest))

  pub replay_loop-encode_all :
      (log : List RecordData)
      → AreRecords is_utf8 log
      → (fuel : ℕ) (s : Replayed) → length (encode_all log) ≤ fuel
      → replay_loop is_utf8 fuel (encode_all log) s ≡ apply_all log s
  unfolding encode_all
  replay_loop-encode_all [] h zero s le = unfold replay_loop in refl
  replay_loop-encode_all [] h (suc fuel) s le = unfold replay_loop in refl
  replay_loop-encode_all (r ∷ log) (hr, h) zero s le =
      absurd (omega (arith, length-encode r (encode_all log)))
  replay_loop-encode_all (r ∷ log) (hr, h) (suc fuel) s le =
      rw (replay_loop-encode r hr (encode_all log) fuel s) (
        replay_loop-encode_all log h fuel (apply_record r s)
          (omega (arith, length-encode r (encode_all log))))

  -- Replaying a file that holds the header and the encodings of well-formed records gives exactly the
  -- state of applying those records in order: no record is lost, skipped or misread.
  pub replay_bytes-encode_all :
      (log : List RecordData)
      → AreRecords is_utf8 log
      → replay_bytes is_utf8 (header ++ encode_all log) ≡ ok (apply_all log no_records)
  unfolding replay_bytes header write_u32 to_le from_le
  replay_bytes-encode_all log h =
      let n = length (header ++ encode_all log) in
      let long : ltb n 8 ≡ false = ground arith in
      rw long (ap ok (replay_loop-encode_all log h n no_records (omega arith)))

-- ===== src/Recording/Loss.antt =====
-- src/recording-writer.ts: what an upload that throws does to the recording.
use wave_realtime_edge.Common.{
  ℕ, zero, suc, ◌+◌, ◌≤◌, ◌<◌, String, ◌≡◌, refl, sym, ap, ◌∙◌, false, none, some, List, ◌++◌,
  arith, length, length-append, ltb, ◌==◌,
}
use wave_realtime_edge.Recording.Writer.{
  part_size, RecordingResult, Run, Bucket, take_exact, take_off, send, unsent, flush, enqueue,
  append_to, append_with, append, finalize, returned, thrown,
}
use wave_realtime_edge.Recording.Bytes.{concat, take_exact-splits, length-take_exact}
use wave_realtime_edge.Recording.Whole.{sent_bytes, IsStreaming, IsObject, Accepts}
use wave_realtime_edge.Recording.Stream.{IsFlushed, enqueue-IsStreaming}
use wave_realtime_edge.Recording.Object.{finalize-IsFinal}
use wave_realtime_edge.Recording.Session.{append_all, append_all-IsFlushed}

module _ (size gap : ℕ) where
  -- The queue after an upload that throws: the part is in neither place.
  unsent-IsFlushed :
      (d : List ℕ) (w : Run)
      → size ≤ w.recorder.buf_len
      → w.recorder.buf_len < size + size
      → IsStreaming size gap d w
      → (before : List ℕ) × (lost : List ℕ) × (after : List ℕ) × (d ≡ before ++ (lost ++ after))
        × (length lost ≡ size)
        × IsFlushed size (gap + size) (before ++ after) (unsent size w)
  unfolding take_off
  unsent-IsFlushed d w le lt h =
      let i = h.intact in
      let q = w.recorder.buf in
      let here = (take_exact size q).0 in
      let rest = (take_exact size q).1 in
      let before = sent_bytes w.sent in
      let splits = take_exact-splits size q in
      let taken = length-take_exact size q (omega (arith, i.queue_counted)) in
      let halves = length-append here (concat rest) in
      (
        before,
        here,
        concat rest,
        sym i.all_there ∙ ap (◌++◌ before) (sym splits),
        taken,
        record {
          streaming = record {
            intact = record {
              all_there = refl;
              queue_counted = omega (arith, i.queue_counted, ap length splits, halves, taken);
              total_counted = omega (
                arith,
                i.total_counted,
                ap length i.all_there,
                length-append before (concat q),
                length-append before (concat rest),
                ap length splits,
                halves,
                taken,
              );
              listed = i.listed;
              next_number = i.next_number;
              numbered = i.numbered;
            };
            upload_id = h.upload_id;
            uploading = h.uploading;
            not_finalized = h.not_finalized;
            not_completed = h.not_completed;
            whole_parts = h.whole_parts;
          };
          short = omega arith;
        },
      )

module _ (size : ℕ) (bad : Bucket)
    (refuses : (number : ℕ) (bytes : List ℕ) → bad.upload_part number bytes ≡ none) where
  flush_fails :
      (fuel : ℕ) (w : Run)
      → 0 < fuel
      → size ≤ w.recorder.buf_len
      → flush fuel size bad w ≡ (thrown, unsent size w)
  unfolding flush send
  flush_fails zero w pos le = absurd (omega arith)
  flush_fails (suc fuel) w pos le =
      let go : ltb w.recorder.buf_len size ≡ false = ground arith in
      let part = (take_exact size w.recorder.buf).0 in
      rw (go, flush) (rw (refuses w.recorder.next_part_number part, send) refl)

  append_fails :
      (payload : List ℕ) (w : Run) (id : String)
      → w.recorder.upload ≡ some id
      → 0 < length payload
      → size ≤ w.recorder.buf_len + length payload
      → append_with size bad payload w
        ≡ (thrown, unsent size (record w { recorder = enqueue payload w.recorder }))
  unfolding append_with
  append_fails payload w id e pos le =
      let some_there : (length payload == 0) ≡ false = ground arith in
      ap (append_to size bad payload w) e
      ∙ rw (some_there, append_to)
          (flush_fails (w.recorder.buf_len + length payload + 1)
            (record w { recorder = enqueue payload w.recorder }) (omega arith)
            (unfold enqueue in omega arith))

-- A failed upload loses a part. If an append that fills a part throws because the bucket refuses the
-- part, and the caller goes on with the same recorder while the bucket accepts every call, then the object
-- is made without the five mebibytes of the refused part, although the append that follows could have
-- sent them again, and the result counts them; the chunk has at most the size of a part.
pub failed_upload-loses :
    (bad good : Bucket) (ok : Accepts good) (d payload : List ℕ) (w : Run) (later : List (List ℕ))
    → ((number : ℕ) (bytes : List ℕ) → bad.upload_part number bytes ≡ none)
    → IsFlushed part_size 0 d w
    → length payload ≤ part_size
    → part_size ≤ w.recorder.buf_len + length payload
    → 0 < length (concat later)
    → (thrown_at : Run) × (done : Run) × (end : Run) × (res : RecordingResult) × (before : List ℕ)
      × (lost : List ℕ) × (after : List ℕ) × (append bad payload w ≡ (thrown, thrown_at))
      × (append_all good later thrown_at ≡ (returned tt, done))
      × (finalize good done ≡ (returned (some res), end))
      × (d ++ payload ≡ before ++ (lost ++ after))
      × (length lost ≡ part_size)
      × IsObject part_size ((before ++ after) ++ concat later) end
      × (res.bytes ≡ length ((before ++ after) ++ concat later) + part_size)
unfolding append append_with
failed_upload-loses bad good ok d payload w later refuses h small full pos =
    let s = h.streaming in
    let queued : Run = record w { recorder = enqueue payload w.recorder } in
    let streaming = enqueue-IsStreaming part_size 0 (omega arith) good ok payload d w s in
    let (before, lost, after, split, whole, flushed) =
      unsent-IsFlushed part_size 0 (d ++ payload) queued (unfold enqueue in omega arith)
        (unfold enqueue in omega (arith, h.short)) streaming in
    let (done, e1, f1) =
      append_all-IsFlushed good ok part_size later (before ++ after) (unsent part_size queued)
        flushed in
    let (end, res, e2, f2) =
      finalize-IsFinal part_size part_size good ok ((before ++ after) ++ concat later) done f1
        (omega (arith, length-append (before ++ after) (concat later))) in
    (
      unsent part_size queued,
      done,
      end,
      res,
      before,
      lost,
      after,
      append_fails part_size bad refuses payload w s.upload_id s.uploading (omega (arith, h.short))
          full,
      e1,
      e2,
      split,
      whole,
      f2.object,
      f2.bytes_counted,
    )

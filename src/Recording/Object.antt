-- ===== src/Recording/Object.antt =====
-- src/recording-writer.ts: the object that a recording becomes.
use wave_realtime_edge.Common.{
  append-nil, ℕ, suc, ◌+◌, ◌≤◌, ◌<◌, String, ◌≡◌, refl, sym, ap, ◌∙◌, inl, inr, false, ◌&&◌, some,
  List, [], ◌∷◌, ◌++◌, map, arith, length, length-append, ltb, ◌==◌, Bool-cases,
}
use wave_realtime_edge.Recording.Writer.{
  RecordingResult, SentPart, Run, Bucket, take_exact, take_off, sent_with, send, result_of, settled,
  complete, close_upload, finalize_from, finalize, returned,
}
use wave_realtime_edge.Recording.Bytes.{concat, length-take_exact}
use wave_realtime_edge.Recording.Whole.{
  sent_bytes, part_of, HasPartSizes, IsIntact, IsObject, Accepts, HasPartSizes-push,
  HasPartSizes-whole, sent_with-IsIntact,
}
use wave_realtime_edge.Recording.Stream.{IsFlushed, no_bytes}

length-map-part_of : (xs : List SentPart) → length (map part_of xs) ≡ length xs
length-map-part_of [] = refl
length-map-part_of (x ∷ xs) = ap suc (length-map-part_of xs)

has_sent : (xs : List SentPart) → 0 < length (sent_bytes xs) → 0 < length xs
unfolding sent_bytes
has_sent [] h = absurd (omega arith)
has_sent (x ∷ xs) h = omega arith

has_parts :
    (gap : ℕ) (d : List ℕ) (w : Run)
    → IsIntact gap d w
    → w.recorder.buf_len ≡ 0
    → 0 < length d
    → 0 < length w.recorder.parts
has_parts gap d w i empty pos =
    let all = ap length i.all_there in
    let both = length-append (sent_bytes w.sent) (concat w.recorder.buf) in
    let sent = has_sent w.sent (omega (arith, all, both, i.queue_counted)) in
    omega (arith, sent, ap length i.listed, length-map-part_of w.sent)

module _ (size gap : ℕ) (b : Bucket) (ok : Accepts b) where
  -- `finalize` gave that result, for an object of those bytes and a count of `gap` more, and every later call gives it again.
  pub record IsFinal (d : List ℕ) (w : Run) (res : RecordingResult) : Type 0 where
    pub object : IsObject size d w
    pub bytes_counted : res.bytes ≡ length d + gap
    pub again : (later : Bucket) → finalize later w ≡ (returned (some res), w)

  completes-cases : (w : Run) → complete b w ≡ (returned (some (result_of w.recorder)), settled w)
  unfolding complete
  completes-cases w = elim (ok.completes w.recorder.parts w.recorder.key) [
    | inl e ↦ rw (e, complete) refl
    | inr e ↦ elim (Bool-cases (b.complete_returns w.recorder.parts)) [
      | inl f ↦ rw (f, complete) refl
      | inr f ↦ rw (f, complete) (rw e refl)
    ]
  ]

  -- What `settled` leaves of a run whose queue is empty.
  settled-IsFinal :
      (d : List ℕ) (w : Run)
      → IsIntact gap d w
      → w.recorder.buf_len ≡ 0
      → w.completed ≡ []
      → HasPartSizes size w.sent
      → IsFinal d (settled w) (result_of w.recorder)
  unfolding finalize
  settled-IsFinal d w i empty c sizes =
      let queue : concat w.recorder.buf ≡ [] =
        no_bytes (concat w.recorder.buf) (omega (arith, i.queue_counted)) in
      record {
        object = record {
          object_bytes =
              sym (append-nil (sent_bytes w.sent))
              ∙ ap (◌++◌ (sent_bytes w.sent)) (sym queue)
              ∙ i.all_there;
          completed_once = ap (λ z. z ++ w.recorder.parts ∷ []) c ∙ ap (λ z. z ∷ []) i.listed;
          numbered = i.numbered;
          part_sizes = sizes;
        };
        bytes_counted = i.total_counted;
        again = λ later. refl;
      }

  close_upload-IsFinal :
      (d : List ℕ) (w : Run) (id : String)
      → IsFlushed size gap d w
      → 0 < length d
      → (w' : Run) × (res : RecordingResult) × (close_upload b w (some id)
          ≡ (returned (some res), w'))
        × IsFinal d w' res
  unfolding close_upload
  close_upload-IsFinal d w id h pos =
      let s = h.streaming in
      let i = s.intact in
      elim (Bool-cases (ltb 0 w.recorder.buf_len)) [
        | inl tail ↦
            let n = w.recorder.buf_len in
            let more : (length w.recorder.parts == 0 && n == 0) ≡ false = ground arith in
            let part = (take_exact n w.recorder.buf).0 in
            let (etag, e) = ok.uploads w.recorder.next_part_number part in
            let w1 = sent_with n etag w in
            let taken : length part ≤ size = omega (
              arith,
              h.short,
              length-take_exact n w.recorder.buf (omega (arith, i.queue_counted)),
            ) in
            (
              settled w1,
              result_of w1.recorder,
              rw (more, tail, close_upload) (rw (e, send) (completes-cases w1)),
              settled-IsFinal d w1 (sent_with-IsIntact n etag gap d w (omega arith) i)
                  (unfold take_off in omega arith) s.not_completed
                  (HasPartSizes-push size w.sent _ s.whole_parts taken),
            )
        | inr none_left ↦
            let zero_left : w.recorder.buf_len ≡ 0 = ground arith in
            let more : (length w.recorder.parts == 0 && w.recorder.buf_len == 0) ≡ false =
              let some_parts = has_parts gap d w i zero_left pos in ground arith in
            (
              settled w,
              result_of w.recorder,
              rw (more, none_left, close_upload) (completes-cases w),
              settled-IsFinal d w i zero_left s.not_completed
                  (HasPartSizes-whole size w.sent s.whole_parts),
            )
      ]

  pub finalize-IsFinal :
      (d : List ℕ) (w : Run)
      → IsFlushed size gap d w
      → 0 < length d
      → (w' : Run) × (res : RecordingResult) × (finalize b w ≡ (returned (some res), w'))
        × IsFinal d w' res
  unfolding finalize
  finalize-IsFinal d w h pos =
      let s = h.streaming in
      let (w', res, e, f) = close_upload-IsFinal d w s.upload_id h pos in
      (w', res, ap (finalize_from b w) s.not_finalized ∙ ap (close_upload b w) s.uploading ∙ e, f)

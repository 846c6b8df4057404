-- ===== src/Recording/Stream.antt =====
-- src/recording-writer.ts: appends keep every byte.
use wave_realtime_edge.Common.{
  append-nil, ℕ, zero, suc, ◌+◌, ◌≤◌, ◌<◌, String, ◌≡◌, refl, sym, ap, ap₂, subst, ◌∙◌, inl, inr,
  List, [], ◌∷◌, ◌++◌, arith, length, length-append, All-append, ltb, ◌==◌, Bool-cases,
  append_assoc,
}
use wave_realtime_edge.Recording.Writer.{
  Run, Bucket, take_exact, take_off, sent_with, send, flush, enqueue, append_to, append_with,
  returned,
}
use wave_realtime_edge.Recording.Bytes.{concat, concat-append, length-take_exact}
use wave_realtime_edge.Recording.Whole.{sent_bytes, IsStreaming, Accepts, sent_with-IsIntact}

-- After an operation that returned: all is kept, and less than a part is in the queue.
pub record IsFlushed (size gap : ℕ) (d : List ℕ) (w : Run) : Type 0 where
  pub streaming : IsStreaming size gap d w
  pub short : w.recorder.buf_len < size

pub no_bytes : (xs : List ℕ) → length xs ≡ 0 → xs ≡ []
no_bytes [] e = refl
no_bytes (x ∷ xs) e = absurd (omega arith)

module _ (size gap : ℕ) (pos : 0 < size) (b : Bucket) (ok : Accepts b) where
  sent_with-IsStreaming :
      (etag : String) (d : List ℕ) (w : Run)
      → size ≤ w.recorder.buf_len
      → IsStreaming size gap d w
      → IsStreaming size gap d (sent_with size etag w)
  unfolding take_off
  sent_with-IsStreaming etag d w le h =
      let there : size ≤ length (concat w.recorder.buf) = omega (arith, h.intact.queue_counted) in
      record {
        intact = sent_with-IsIntact size etag gap d w le h.intact;
        upload_id = h.upload_id;
        uploading = h.uploading;
        not_finalized = h.not_finalized;
        not_completed = h.not_completed;
        whole_parts =
            All-append (λ p. length p.bytes ≡ size) w.sent _ h.whole_parts
              (length-take_exact size w.recorder.buf there, tt);
      }

  pub flush-IsFlushed :
      (fuel : ℕ) (d : List ℕ) (w : Run)
      → w.recorder.buf_len < fuel
      → IsStreaming size gap d w
      → (w' : Run) × (flush fuel size b w ≡ (returned tt, w')) × IsFlushed size gap d w'
  unfolding flush
  flush-IsFlushed zero d w lt h = absurd (omega arith)
  flush-IsFlushed (suc fuel) d w lt h = elim (Bool-cases (ltb w.recorder.buf_len size)) [
    | inl stop ↦ (w, rw (stop, flush) refl, record { streaming = h; short = ground arith })
    | inr go ↦
        let part = (take_exact size w.recorder.buf).0 in
        let (etag, sent) = ok.uploads w.recorder.next_part_number part in
        let le : size ≤ w.recorder.buf_len = ground arith in
        let less : (sent_with size etag w).recorder.buf_len < fuel =
          unfold take_off in omega arith in
        let (w', e, f) =
          flush-IsFlushed fuel d (sent_with size etag w) less
            (sent_with-IsStreaming etag d w le h) in
        (w', rw (go, flush) (rw (sent, send) e), f)
  ]

  pub enqueue-IsStreaming :
      (payload d : List ℕ) (w : Run)
      → IsStreaming size gap d w
      → IsStreaming size gap (d ++ payload) (record w { recorder = enqueue payload w.recorder })
  unfolding enqueue concat
  enqueue-IsStreaming payload d w h =
      let queue = concat-append w.recorder.buf (payload ∷ []) in
      let i = h.intact in
      record {
        intact = record {
          all_there =
              ap (◌++◌ (sent_bytes w.sent)) queue
              ∙ sym (append_assoc (sent_bytes w.sent) (concat w.recorder.buf) (payload ++ []))
              ∙ ap₂ ◌++◌ i.all_there (append-nil payload);
          queue_counted = omega (
            arith,
            i.queue_counted,
            ap length queue,
            length-append (concat w.recorder.buf) (payload ++ []),
            ap length (append-nil payload),
          );
          total_counted = omega (arith, i.total_counted, length-append d payload);
          listed = i.listed;
          next_number = i.next_number;
          numbered = i.numbered;
        };
        upload_id = h.upload_id;
        uploading = h.uploading;
        not_finalized = h.not_finalized;
        not_completed = h.not_completed;
        whole_parts = h.whole_parts;
      }

  pub append_with-IsFlushed :
      (payload d : List ℕ) (w : Run)
      → IsFlushed size gap d w
      → (w' : Run) × (append_with size b payload w ≡ (returned tt, w'))
        × IsFlushed size gap (d ++ payload) w'
  unfolding append_with
  append_with-IsFlushed payload d w h =
      let s = h.streaming in
      elim (Bool-cases (length payload == 0)) [
        | inl empty ↦
            let none_there : payload ≡ [] = no_bytes payload (ground arith) in
            (
              w,
              ap (append_to size b payload w) s.uploading ∙ rw (empty, append_to) refl,
              subst (λ z. IsFlushed size gap z w)
                  (sym (append-nil d) ∙ ap (◌++◌ d) (sym none_there)) h,
            )
        | inr some_there ↦
            let full : Run = record w { recorder = enqueue payload w.recorder } in
            let (w', e, f) =
              flush-IsFlushed (w.recorder.buf_len + length payload + 1) (d ++ payload) full
                (unfold enqueue in omega arith) (enqueue-IsStreaming payload d w s) in
            (w', ap (append_to size b payload w) s.uploading ∙ rw (some_there, append_to) e, f)
      ]

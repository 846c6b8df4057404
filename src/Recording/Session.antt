-- ===== src/Recording/Session.antt =====
-- src/recording-writer.ts: a recording from its first chunk to its object, with and without an eviction.
use wave_realtime_edge.Common.{
  append-nil, ℕ, ◌-◌, ◌<◌, String, ◌≡◌, refl, sym, ap, subst, ◌∙◌, Option, some, List, [], ◌∷◌,
  ◌++◌, arith, length, length-append, append_assoc,
}
use wave_realtime_edge.Recording.Key.{Container, sniff_webm, recording_key}
use wave_realtime_edge.Recording.Writer.{
  part_size, RecorderMeta, RecordingResult, Run, Bucket, Ended, append, fresh, started, begin,
  meta_of, to_meta, resume, finalize, returned, thrown,
}
use wave_realtime_edge.Recording.Bytes.{concat}
use wave_realtime_edge.Recording.Whole.{sent_bytes, Accepts}
use wave_realtime_edge.Recording.Stream.{IsFlushed, append_with-IsFlushed}
use wave_realtime_edge.Recording.Object.{IsFinal, finalize-IsFinal}

abbrev pub chain : Ended (Unit {0}) × Run → (Run → Ended (Unit {0}) × Run) → Ended (Unit {0}) × Run
chain (returned u, w) next = next w
chain (thrown, w) next = (thrown, w)

-- One append after the other, up to one that throws.
unfoldable pub append_all : Bucket → List (List ℕ) → Run → Ended (Unit {0}) × Run
append_all b [] w = (returned tt, w)
append_all b (payload ∷ payloads) w = chain (append b payload w) (append_all b payloads)

-- An upload that has just been created has lost nothing.
pub fresh-IsFlushed :
    (key : String) (container : Container) (session_id id : String)
    → IsFlushed part_size 0 [] (record {
      recorder = record (fresh key container session_id) { upload = some id };
      sent = [];
      completed = [];
    })
unfolding sent_bytes concat
fresh-IsFlushed key container session_id id = record {
  streaming = record {
    intact = record {
      all_there = refl;
      queue_counted = refl;
      total_counted = refl;
      listed = refl;
      next_number = refl;
      numbered = tt;
    };
    upload_id = id;
    uploading = refl;
    not_finalized = refl;
    not_completed = refl;
    whole_parts = tt;
  };
  short = omega arith;
}

module _ (b : Bucket) (ok : Accepts b) where
  pub append_all-IsFlushed :
      (gap : ℕ) (payloads : List (List ℕ)) (d : List ℕ) (w : Run)
      → IsFlushed part_size gap d w
      → (w' : Run) × (append_all b payloads w ≡ (returned tt, w'))
        × IsFlushed part_size gap (d ++ concat payloads) w'
  unfolding append_all append concat
  append_all-IsFlushed gap [] d w h =
      (w, refl, subst (λ z. IsFlushed part_size gap z w) (sym (append-nil d)) h)
  append_all-IsFlushed gap (p ∷ ps) d w h =
      let (w1, e, f) = append_with-IsFlushed part_size gap (omega arith) b ok p d w h in
      let (w2, e2, f2) = append_all-IsFlushed gap ps (d ++ p) w1 f in
      (
        w2,
        ap (λ z. chain z (append_all b ps)) e ∙ e2,
        subst (λ z. IsFlushed part_size gap z w2) (append_assoc d p (concat ps)) f2,
      )

  begin-IsFlushed :
      (org session_id : String) (first : List ℕ) (region : Option String)
      → (w : Run) × (begin b org session_id first region ≡ returned w)
        × IsFlushed part_size 0 first w
  unfolding begin append
  begin-IsFlushed org session_id first region =
      let container = sniff_webm first in
      let key = recording_key org session_id container region in
      let (id, created) = ok.creates key in
      let start : Run = record {
        recorder = record (fresh key container session_id) { upload = some id };
        sent = [];
        completed = [];
      } in
      let empty = fresh-IsFlushed key container session_id id in
      let (w, e, f) = append_with-IsFlushed part_size 0 (omega arith) b ok first [] start empty in
      (w, rw (created, begin) (ap started e), f)

  -- No byte is lost. If the bucket accepts the calls (an error of the last one may hide that the object is
  -- there), a recording that is given a byte at all returns from every append and from finalize; the bucket is
  -- told once to make the object, of parts numbered from 1 which are all the bytes in order, every part but
  -- the last of five mebibytes; the result counts the bytes, and finalize gives it again.
  pub recording_whole :
      (org session_id : String) (first : List ℕ) (region : Option String) (payloads : List (List ℕ))
      → 0 < length (first ++ concat payloads)
      → (begun : Run) × (done : Run) × (w : Run) × (res : RecordingResult) × (begin b org session_id
            first region
          ≡ returned begun)
        × (append_all b payloads begun ≡ (returned tt, done))
        × (finalize b done ≡ (returned (some res), w))
        × IsFinal part_size 0 b ok (first ++ concat payloads) w res
  recording_whole org session_id first region payloads pos =
      let (begun, e, f) = begin-IsFlushed org session_id first region in
      let (done, e1, f1) = append_all-IsFlushed 0 payloads first begun f in
      let (w, res, e2, f2) =
        finalize-IsFinal part_size 0 b ok (first ++ concat payloads) done f1 pos in
      (begun, done, w, res, e, e1, e2, f2)

  -- What the recorder is when it is made again from its snapshot: the queue is gone.
  resume-IsFlushed :
      (d : List ℕ) (w : Run)
      → IsFlushed part_size 0 d w
      → (meta : RecorderMeta) × (kept : List ℕ) × (lost : List ℕ) × (to_meta w.recorder ≡ some meta)
        × (d ≡ kept ++ lost)
        × (length lost < part_size)
        × IsFlushed part_size 0 kept (record w { recorder = resume meta })
  unfolding to_meta resume concat
  resume-IsFlushed d w h =
      let s = h.streaming in
      let i = s.intact in
      let meta : RecorderMeta = record {
        session_id = w.recorder.session_id;
        key = w.recorder.key;
        upload_id = s.upload_id;
        parts = w.recorder.parts;
        next_part_number = w.recorder.next_part_number;
        total_bytes = w.recorder.total_bytes - w.recorder.buf_len;
        container = w.recorder.container;
      } in
      let both = length-append (sent_bytes w.sent) (concat w.recorder.buf) in
      (
        meta,
        sent_bytes w.sent,
        concat w.recorder.buf,
        ap (meta_of w.recorder) s.uploading,
        sym i.all_there,
        omega (arith, h.short, i.queue_counted),
        record {
          streaming = record {
            intact = record {
              all_there = append-nil (sent_bytes w.sent);
              queue_counted = refl;
              total_counted =
                  omega (arith, i.total_counted, i.queue_counted, both, ap length i.all_there);
              listed = i.listed;
              next_number = i.next_number;
              numbered = i.numbered;
            };
            upload_id = s.upload_id;
            uploading = refl;
            not_finalized = refl;
            not_completed = s.not_completed;
            whole_parts = s.whole_parts;
          };
          short = omega arith;
        },
      )

  -- An eviction loses less than a part. If the recorder is made again from its snapshot after some
  -- appends, and then gets at least one more byte, the object is the bytes from before less fewer than five
  -- mebibytes at their end, and then the bytes from after, and the result counts what the object has; the
  -- bucket accepts the calls.
  pub recording_resumed :
      (org session_id : String) (first : List ℕ) (region : Option String)
      (payloads later : List (List ℕ))
      → 0 < length (concat later)
      → (begun : Run) × (evicted : Run) × (meta : RecorderMeta) × (done : Run) × (w : Run)
        × (res : RecordingResult) × (kept : List ℕ) × (lost : List ℕ) × (begin b org session_id
              first region
            ≡ returned begun)
        × (append_all b payloads begun ≡ (returned tt, evicted))
        × (to_meta evicted.recorder ≡ some meta)
        × (append_all b later (record evicted { recorder = resume meta }) ≡ (returned tt, done))
        × (finalize b done ≡ (returned (some res), w))
        × (first ++ concat payloads ≡ kept ++ lost)
        × (length lost < part_size)
        × IsFinal part_size 0 b ok (kept ++ concat later) w res
  recording_resumed org session_id first region payloads later pos =
      let (begun, e, f) = begin-IsFlushed org session_id first region in
      let (evicted, e1, f1) = append_all-IsFlushed 0 payloads first begun f in
      let (meta, kept, lost, e2, split, short, f2) =
        resume-IsFlushed (first ++ concat payloads) evicted f1 in
      let woken : Run = record evicted { recorder = resume meta } in
      let (done, e3, f3) = append_all-IsFlushed 0 later kept woken f2 in
      let (w, res, e4, f4) =
        finalize-IsFinal part_size 0 b ok (kept ++ concat later) done f3
          (omega (arith, length-append kept (concat later))) in
      (begun, evicted, meta, done, w, res, kept, lost, e, e1, e2, e3, e4, split, short, f4)

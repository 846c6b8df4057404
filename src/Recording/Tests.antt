-- ===== src/Recording/Tests.antt =====
-- Instances of the theorems on the recorder.
use wave_realtime_edge.Common.{
  ℕ, zero, suc, ◌+◌, ◌<◌, ◌≡◌, refl, ap, inr, true, false, none, some, List, [], ◌∷◌, ◌++◌, arith,
  length, length-append,
}
use wave_realtime_edge.Recording.Key.{sniff_webm, recording_key, webm, raw}
use wave_realtime_edge.Recording.Writer.{
  part_size, RecorderMeta, RecordingResult, Run, Bucket, append, fresh, begin, to_meta, resume,
  finalize, returned, thrown,
}
use wave_realtime_edge.Recording.Bytes.{concat}
use wave_realtime_edge.Recording.Whole.{IsObject, Accepts}
use wave_realtime_edge.Recording.Stream.{IsFlushed}
use wave_realtime_edge.Recording.Object.{IsFinal}
use wave_realtime_edge.Recording.Session.{
  append_all, fresh-IsFlushed, recording_whole, recording_resumed,
}
use wave_realtime_edge.Recording.Loss.{failed_upload-loses}

-- A bucket whose last call throws although the object is there.
abbrev bucket : Bucket
bucket = record {
  create_multipart_upload = λ key. some "upload-1";
  upload_part = λ number bytes. some "etag";
  complete_returns = λ parts. false;
  head = λ key. some true;
}

abbrev refusing : Bucket
refusing = record bucket { upload_part = λ number bytes. none }

bucket-Accepts : Accepts bucket
bucket-Accepts = record {
  creates = λ key. ("upload-1", refl);
  uploads = λ number bytes. ("etag", refl);
  completes = λ parts key. inr refl;
}

abbrev magic : List ℕ
magic = 0x1a ∷ 0x45 ∷ 0xdf ∷ 0xa3 ∷ []

abbrev chunks : List (List ℕ)
chunks = (1 ∷ 2 ∷ []) ∷ [] ∷ (3 ∷ []) ∷ []

sniff_webm_example : sniff_webm magic ≡ webm
unfolding sniff_webm
sniff_webm_example = refl

recording_key_example :
    recording_key "org-1" "session-1" webm (some "us-east")
    ≡ "org-1/realtime-recordings/us-east/session-1/recording.webm"
unfolding recording_key
recording_key_example = refl

recording_whole_example :
    (begun : Run) × (done : Run) × (w : Run) × (res : RecordingResult) × (begin bucket "org-1"
        "session-1" magic none
      ≡ returned begun)
    × (append_all bucket chunks begun ≡ (returned tt, done))
    × (finalize bucket done ≡ (returned (some res), w))
    × IsFinal part_size 0 bucket bucket-Accepts (magic ++ concat chunks) w res
recording_whole_example =
    recording_whole bucket bucket-Accepts "org-1" "session-1" magic none chunks
      (omega (arith, length-append magic (concat chunks)))

some_later : 0 < length (concat chunks)
unfolding concat
some_later = omega arith

recording_resumed_example :
    (begun : Run) × (evicted : Run) × (meta : RecorderMeta) × (done : Run) × (w : Run)
    × (res : RecordingResult) × (kept : List ℕ) × (lost : List ℕ) × (begin bucket "org-1"
          "session-1" magic none
        ≡ returned begun)
    × (append_all bucket chunks begun ≡ (returned tt, evicted))
    × (to_meta evicted.recorder ≡ some meta)
    × (append_all bucket chunks (record evicted { recorder = resume meta }) ≡ (returned tt, done))
    × (finalize bucket done ≡ (returned (some res), w))
    × (magic ++ concat chunks ≡ kept ++ lost)
    × (length lost < part_size)
    × IsFinal part_size 0 bucket bucket-Accepts (kept ++ concat chunks) w res
recording_resumed_example =
    recording_resumed bucket bucket-Accepts "org-1" "session-1" magic none chunks chunks some_later

zeros : ℕ → List ℕ
zeros zero = []
zeros (suc n) = 0 ∷ zeros n

length-zeros : (n : ℕ) → length (zeros n) ≡ n
unfolding zeros
length-zeros zero = refl
length-zeros (suc n) = ap suc (length-zeros n)

abbrev begun_run : Run
begun_run = record {
  recorder = record (fresh "org-1/realtime-recordings/session-1/recording.bin" raw "session-1") {
    upload = some "upload-1";
  };
  sent = [];
  completed = [];
}

begun_run-IsFlushed : IsFlushed part_size 0 [] begun_run
begun_run-IsFlushed =
    fresh-IsFlushed "org-1/realtime-recordings/session-1/recording.bin" raw "session-1" "upload-1"

failed_upload-loses_example :
    (thrown_at : Run) × (done : Run) × (end : Run) × (res : RecordingResult) × (before : List ℕ)
    × (lost : List ℕ) × (after : List ℕ) × (append refusing (zeros part_size) begun_run
        ≡ (thrown, thrown_at))
    × (append_all bucket chunks thrown_at ≡ (returned tt, done))
    × (finalize bucket done ≡ (returned (some res), end))
    × ([] ++ zeros part_size ≡ before ++ (lost ++ after))
    × (length lost ≡ part_size)
    × IsObject part_size ((before ++ after) ++ concat chunks) end
    × (res.bytes ≡ length ((before ++ after) ++ concat chunks) + part_size)
failed_upload-loses_example =
    failed_upload-loses refusing bucket bucket-Accepts [] (zeros part_size) begun_run chunks
      (λ number bytes. refl) begun_run-IsFlushed (omega (arith, length-zeros part_size))
      (omega (arith, length-zeros part_size)) some_later

-- ===== src/Recording/Writer.antt =====
-- src/recording-writer.ts: the class RealtimeRecorder. What the bucket answers to each call is a parameter of
-- the operation that makes it. A method that throws leaves the fields as they were assigned by then, so an
-- operation gives the state in any case, and whether it returned.
use wave_realtime_edge.Common.{
  ℕ, zero, suc, ◌+◌, ◌-◌, ◌*◌, String, Bool, ◌&&◌, Option, none, some, List, [], ◌∷◌, ◌++◌, length,
  take, drop, ltb, leb, ◌==◌, if◌then◌else◌,
}
use wave_realtime_edge.Recording.Key.{Container, sniff_webm, recording_key}

abbrev pub part_size : ℕ
part_size = 5 * 1024 * 1024

pub record R2UploadedPart : Type 0 where
  pub part_number : ℕ
  pub etag : String

pub record RecorderMeta : Type 0 where
  pub session_id : String
  pub key : String
  pub upload_id : String
  pub parts : List R2UploadedPart
  pub next_part_number : ℕ
  pub total_bytes : ℕ
  pub container : Container

pub record RecordingResult : Type 0 where
  pub key : String
  pub bytes : ℕ
  pub container : Container

-- The fields of a RealtimeRecorder. The bucket's multipart upload is known by its id.
pub record RealtimeRecorder : Type 0 where
  pub upload : Option String
  pub buf : List (List ℕ)
  pub buf_len : ℕ
  pub parts : List R2UploadedPart
  pub next_part_number : ℕ
  pub total_bytes : ℕ
  pub finalized : Option RecordingResult
  pub key : String
  pub container : Container
  pub session_id : String

-- A call of uploadPart that the bucket accepted.
pub record SentPart : Type 0 where
  pub part : R2UploadedPart
  pub bytes : List ℕ

-- The recorder, and the calls that it has made: the accepted parts, and the part lists of the calls of
-- complete that did not throw, or after which the object was there.
pub record Run : Type 0 where
  pub recorder : RealtimeRecorder
  pub sent : List SentPart
  pub completed : List (List R2UploadedPart)

-- The answers of the bucket; none where the call throws.
pub record Bucket : Type 0 where
  pub create_multipart_upload : String → Option String
  pub upload_part : ℕ → List ℕ → Option String
  pub complete_returns : List R2UploadedPart → Bool
  pub head : String → Option Bool

-- Whether a method returned or threw.
pub data Ended (A : Type 0) : Type 0 where
  returned : A → Ended A
  thrown : Ended A

-- Pull bytes off the front of the chunk queue. On an empty queue the source would throw; the callers ask
-- for no more bytes than the queue has.
unfoldable pub take_exact : ℕ → List (List ℕ) → List ℕ × List (List ℕ)
take_exact need [] = ([], [])
take_exact need (head ∷ rest) =
    let later = take_exact (need - length head) rest in
    if need == 0
    then ([], head ∷ rest)
    else if leb (length head) need
    then (head ++ later.0, later.1)
    else (take need head, drop need head ∷ rest)

-- `takeExact` on the fields.
unfoldable pub take_off : ℕ → RealtimeRecorder → RealtimeRecorder
unfolding take_exact
take_off n r = record r { buf = (take_exact n r.buf).1; buf_len = r.buf_len - n }

-- The state after a part is uploaded.
abbrev pub sent_with : ℕ → String → Run → Run
sent_with n etag w =
    let number = w.recorder.next_part_number in
    let part : R2UploadedPart = record { part_number = number; etag = etag } in
    record w {
      recorder = record (take_off n w.recorder) {
        parts = w.recorder.parts ++ part ∷ [];
        next_part_number = number + 1;
      };
      sent = w.sent ++ (record { part = part; bytes = (take_exact n w.recorder.buf).0 }) ∷ [];
    }

-- `takeExact`, and the three lines after it: the part is uploaded and recorded.
unfoldable pub send : ℕ → Bucket → Run → Option Run
unfolding take_exact take_off
send n b w = elim (b.upload_part w.recorder.next_part_number (take_exact n w.recorder.buf).0) [
  | none ↦ none
  | some etag ↦ some (sent_with n etag w)
]

-- The state that an upload leaves which throws: the bytes are off the queue.
abbrev pub unsent : ℕ → Run → Run
unsent n w = record w { recorder = take_off n w.recorder }

-- `while (this.bufLen >= PART_SIZE)`. One round for each byte of the queue and one more are enough.
unfoldable pub flush : ℕ → ℕ → Bucket → Run → Ended (Unit {0}) × Run
unfolding send
flush zero size b w = (returned tt, w)
flush (suc fuel) size b w =
    let round : Ended (Unit {0}) × Run = elim (send size b w) [
      | none ↦ (thrown, unsent size w)
      | some w' ↦ flush fuel size b w'
    ] in
    if ltb w.recorder.buf_len size then (returned tt, w) else round

unfoldable pub enqueue : List ℕ → RealtimeRecorder → RealtimeRecorder
enqueue payload r = record r {
  buf = r.buf ++ payload ∷ [];
  buf_len = r.buf_len + length payload;
  total_bytes = r.total_bytes + length payload;
}

-- `append`, by whether there is an upload.
unfoldable pub append_to : ℕ → Bucket → List ℕ → Run → Option String → Ended (Unit {0}) × Run
unfolding flush enqueue
append_to size b payload w none = (returned tt, w)
append_to size b payload w (some id) =
    if length payload == 0
    then (returned tt, w)
    else flush (w.recorder.buf_len + length payload + 1) size b
        (record w { recorder = enqueue payload w.recorder })

unfoldable pub append_with : ℕ → Bucket → List ℕ → Run → Ended (Unit {0}) × Run
unfolding append_to
append_with size b payload w = append_to size b payload w w.recorder.upload

unfoldable pub append : Bucket → List ℕ → Run → Ended (Unit {0}) × Run
unfolding append_with
append b payload w = append_with part_size b payload w

abbrev pub fresh : String → Container → String → RealtimeRecorder
fresh key container session_id = record {
  upload = none;
  buf = [];
  buf_len = 0;
  parts = [];
  next_part_number = 1;
  total_bytes = 0;
  finalized = none;
  key = key;
  container = container;
  session_id = session_id;
}

abbrev pub started : Ended (Unit {0}) × Run → Ended Run
started (returned u, w) = returned w
started (thrown, w) = thrown

-- `begin`. It throws if the bucket does not create the upload or the first append throws.
unfoldable pub begin : Bucket → String → String → List ℕ → Option String → Ended Run
unfolding append sniff_webm recording_key
begin b org session_id first region =
    let container = sniff_webm first in
    let key = recording_key org session_id container region in
    elim (b.create_multipart_upload key) [
      | none ↦ thrown
      | some id ↦ started (
          append b first (record {
            recorder = record (fresh key container session_id) { upload = some id };
            sent = [];
            completed = [];
          }))
    ]

-- The snapshot of a recorder with that upload; what is in the queue is not counted.
unfoldable pub meta_of : RealtimeRecorder → Option String → Option RecorderMeta
meta_of r none = none
meta_of r (some id) = some (record {
  session_id = r.session_id;
  key = r.key;
  upload_id = id;
  parts = r.parts;
  next_part_number = r.next_part_number;
  total_bytes = r.total_bytes - r.buf_len;
  container = r.container;
})

unfoldable pub to_meta : RealtimeRecorder → Option RecorderMeta
unfolding meta_of
to_meta r = meta_of r r.upload

unfoldable pub resume : RecorderMeta → RealtimeRecorder
resume meta = record (fresh meta.key meta.container meta.session_id) {
  upload = some meta.upload_id;
  parts = meta.parts;
  next_part_number = meta.next_part_number;
  total_bytes = meta.total_bytes;
}

abbrev pub result_of : RealtimeRecorder → RecordingResult
result_of r = record { key = r.key; bytes = r.total_bytes; container = r.container }

-- After `complete`: the recorder keeps the result.
abbrev pub settled : Run → Run
settled w = record w {
  recorder = record (w.recorder) { upload = none; finalized = some (result_of w.recorder) };
  completed = w.completed ++ w.recorder.parts ∷ [];
}

unfoldable pub complete : Bucket → Run → Ended (Option RecordingResult) × Run
complete b w =
    if b.complete_returns w.recorder.parts
    then (returned (some (result_of w.recorder)), settled w)
    else elim (b.head w.recorder.key) [
      | none ↦ (thrown, w)
      | some landed ↦
          if landed then (returned (some (result_of w.recorder)), settled w) else (thrown, w)
    ]

-- `finalize` of a recorder that is not finalized, by whether there is an upload. An abort is best effort:
-- a throw of it is swallowed.
unfoldable pub close_upload : Bucket → Run → Option String → Ended (Option RecordingResult) × Run
unfolding send complete
close_upload b w none = (returned none, w)
close_upload b w (some id) =
    if length w.recorder.parts == 0 && w.recorder.buf_len == 0
    then (returned none, record w { recorder = record (w.recorder) { upload = none } })
    else if ltb 0 w.recorder.buf_len
    then elim (send w.recorder.buf_len b w) [
      | none ↦ (thrown, unsent w.recorder.buf_len w)
      | some w' ↦ complete b w'
    ]
    else complete b w

unfoldable pub finalize_from :
    Bucket → Run → Option RecordingResult → Ended (Option RecordingResult) × Run
unfolding close_upload
finalize_from b w none = close_upload b w w.recorder.upload
finalize_from b w (some result) = (returned (some result), w)

unfoldable pub finalize : Bucket → Run → Ended (Option RecordingResult) × Run
unfolding finalize_from
finalize b w = finalize_from b w w.recorder.finalized

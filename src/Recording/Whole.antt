-- ===== src/Recording/Whole.antt =====
-- src/recording-writer.ts: what a recorder keeps of the bytes that it was given.
use wave_realtime_edge.Common.{
  append-nil, ℕ, ◌+◌, ◌≤◌, String, ◌≡◌, refl, sym, ap, ◌∙◌, ◌⊎◌, true, none, some, List, [], ◌∷◌,
  ◌++◌, map, arith, length, length-append, All, append_assoc,
}
use wave_realtime_edge.Recording.Writer.{
  R2UploadedPart, SentPart, Run, Bucket, take_exact, take_off, sent_with,
}
use wave_realtime_edge.Recording.Bytes.{concat, take_exact-splits, length-take_exact}

unfoldable pub sent_bytes : List SentPart → List ℕ
sent_bytes [] = []
sent_bytes (p ∷ ps) = p.bytes ++ sent_bytes ps

abbrev pub part_of : SentPart → R2UploadedPart
part_of p = p.part

-- The parts are numbered one after the other.
abbrev pub IsNumbered : ℕ → List SentPart → Type 0
IsNumbered n [] = Unit
IsNumbered n (p ∷ ps) = (p.part.part_number ≡ n) × IsNumbered (n + 1) ps

-- Every part but the last has the size, and the last has at most it.
abbrev pub HasPartSizes : ℕ → List SentPart → Type 0
HasPartSizes size [] = Unit
HasPartSizes size (p ∷ []) = length p.bytes ≤ size
HasPartSizes size (p ∷ q ∷ ps) = (length p.bytes ≡ size) × HasPartSizes size (q ∷ ps)

-- The bytes `d` are in the accepted parts and the queue, in order; the recorder counts `gap` bytes more.
pub record IsIntact (gap : ℕ) (d : List ℕ) (w : Run) : Type 0 where
  pub all_there : sent_bytes w.sent ++ concat w.recorder.buf ≡ d
  pub queue_counted : w.recorder.buf_len ≡ length (concat w.recorder.buf)
  pub total_counted : w.recorder.total_bytes ≡ length d + gap
  pub listed : w.recorder.parts ≡ map part_of w.sent
  pub next_number : w.recorder.next_part_number ≡ length w.sent + 1
  pub numbered : IsNumbered 1 w.sent

-- An upload is open and nothing is finalized; each accepted part has the size.
pub record IsStreaming (size gap : ℕ) (d : List ℕ) (w : Run) : Type 0 where
  pub intact : IsIntact gap d w
  pub upload_id : String
  pub uploading : w.recorder.upload ≡ some upload_id
  pub not_finalized : w.recorder.finalized ≡ none
  pub not_completed : w.completed ≡ []
  pub whole_parts : All (λ p. length p.bytes ≡ size) w.sent

-- The bucket was told once to make an object of the parts, which are the bytes `d`.
pub record IsObject (size : ℕ) (d : List ℕ) (w : Run) : Type 0 where
  pub object_bytes : sent_bytes w.sent ≡ d
  pub completed_once : w.completed ≡ map part_of w.sent ∷ []
  pub numbered : IsNumbered 1 w.sent
  pub part_sizes : HasPartSizes size w.sent

-- Every call is accepted; an error of `complete` hides that the object is there.
pub record Accepts (b : Bucket) : Type 0 where
  pub creates : (key : String) → (id : String) × (b.create_multipart_upload key ≡ some id)
  pub uploads :
      (number : ℕ) (bytes : List ℕ) → (etag : String) × (b.upload_part number bytes ≡ some etag)
  pub completes :
      (parts : List R2UploadedPart) (key : String)
      → (b.complete_returns parts ≡ true) ⊎ (b.head key ≡ some true)

sent_bytes-append : (xs ys : List SentPart) → sent_bytes (xs ++ ys) ≡ sent_bytes xs ++ sent_bytes ys
unfolding sent_bytes
sent_bytes-append [] ys = refl
sent_bytes-append (x ∷ xs) ys =
    ap (◌++◌ x.bytes) (sent_bytes-append xs ys)
    ∙ sym (append_assoc x.bytes (sent_bytes xs) (sent_bytes ys))

map-push :
    (xs : List SentPart) (p : SentPart) → map part_of (xs ++ p ∷ []) ≡ map part_of xs ++ p.part ∷ []
map-push [] p = refl
map-push (x ∷ xs) p = ap (◌∷◌ x.part) (map-push xs p)

IsNumbered-push :
    (n : ℕ) (xs : List SentPart) (p : SentPart)
    → IsNumbered n xs
    → p.part.part_number ≡ length xs + n
    → IsNumbered n (xs ++ p ∷ [])
IsNumbered-push n [] p h e = (omega (arith, e), tt)
IsNumbered-push n (x ∷ xs) p (q, h) e = (q, IsNumbered-push (n + 1) xs p h (omega (arith, e)))

pub HasPartSizes-push :
    (size : ℕ) (xs : List SentPart) (p : SentPart)
    → All (λ q. length q.bytes ≡ size) xs
    → length p.bytes ≤ size
    → HasPartSizes size (xs ++ p ∷ [])
HasPartSizes-push size [] p h le = le
HasPartSizes-push size (x ∷ []) p (e, h) le = (e, le)
HasPartSizes-push size (x ∷ y ∷ ys) p (e, h) le = (e, HasPartSizes-push size (y ∷ ys) p h le)

pub HasPartSizes-whole :
    (size : ℕ) (xs : List SentPart) → All (λ q. length q.bytes ≡ size) xs → HasPartSizes size xs
HasPartSizes-whole size [] h = tt
HasPartSizes-whole size (x ∷ []) (e, h) = omega (arith, e)
HasPartSizes-whole size (x ∷ y ∷ ys) (e, h) = (e, HasPartSizes-whole size (y ∷ ys) h)

-- A part that the bucket accepts takes its bytes from the head of the queue.
pub sent_with-IsIntact :
    (n : ℕ) (etag : String) (gap : ℕ) (d : List ℕ) (w : Run)
    → n ≤ w.recorder.buf_len
    → IsIntact gap d w
    → IsIntact gap d (sent_with n etag w)
unfolding take_off sent_bytes
sent_with-IsIntact n etag gap d w le h =
    let q = w.recorder.buf in
    let here = (take_exact n q).0 in
    let rest = (take_exact n q).1 in
    let splits = take_exact-splits n q in
    let p : SentPart = record {
      part = record { part_number = w.recorder.next_part_number; etag = etag };
      bytes = here;
    } in
    record {
      all_there =
          ap (λ z. z ++ concat rest) (sent_bytes-append w.sent (p ∷ []))
          ∙ append_assoc (sent_bytes w.sent) (here ++ []) (concat rest)
          ∙ ap (λ z. sent_bytes w.sent ++ (z ++ concat rest)) (append-nil here)
          ∙ ap (◌++◌ (sent_bytes w.sent)) splits
          ∙ h.all_there;
      queue_counted = omega (
        arith,
        h.queue_counted,
        length-take_exact n q (omega (arith, h.queue_counted)),
        ap length splits,
        length-append here (concat rest),
      );
      total_counted = h.total_counted;
      listed = ap (λ z. z ++ p.part ∷ []) h.listed ∙ sym (map-push w.sent p);
      next_number = omega (arith, h.next_number, length-append w.sent (p ∷ []));
      numbered = IsNumbered-push 1 w.sent p h.numbered h.next_number;
    }

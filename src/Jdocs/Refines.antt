-- ===== src/Jdocs/Refines.antt =====
-- The process of the jdocs, bytes in and bytes out, against what it promises for each request.
use vic_cloudless.Prelude.{
  ◌≢◌, length, All, Bool-cases, ◌<◌, ◌≡◌, refl, sym, ap, ◌∙◌, subst, inl, inr, Bool, true, false,
  ◌&&◌, none, some, List, [], ◌∷◌, ◌++◌, append-nil,
}
use vic_cloudless.Clad.Wire.{Bytes}
use vic_cloudless.Clad.Docs.{
  WriteRequest, ReadRequest, DeleteRequest, ResponseDoc, write_accepted, error_connecting,
}
use vic_cloudless.Clad.Docs.Messages.{
  DocRequest, write, read, delete_req, user, thing, invalid, DocResponse, write_resp, read_resp,
  delete_resp, err, user_resp, thing_resp, pack_response, unpack_request, pack_request,
  fits_request, fits_response, unpack_response, unpack_request-pack, unpack_response-pack,
}
use vic_cloudless.Jdocs.Translate.{DeleteDocReq, delete_to_proto, read_to_proto}
use vic_cloudless.Jdocs.Server.{
  Identity, Options, Deletion, deleted, refused, nil_connection, deletion_handled, Handled, done,
  ends_here, Act, reply, report, fetch_weather, crash, missing, handle_request, acts_of,
  handle_conn, read_handled, write_handled, delete_handled, on_unpacked,
}
use vic_cloudless.Jdocs.Ready.{
  Ready, Short, length-repeat_missing, read_resp-Ready, items-lt, repeat_missing-All,
  user_resp-Ready, thing_resp-Ready, write_resp-Ready, delete_resp-Ready, err-Ready,
}

-- What the process promises for each request: a write is accepted, of each document that is asked for
-- it is said that it is not found, a deletion is done or the service gives an error, and the
-- user and the thing are the robot's. A request without a value has no answer.
pub data Answers (i : Identity) (delete_doc : DeleteDocReq → Deletion)
    : DocRequest → DocResponse → Type 0 where
  accepts :
      (r : WriteRequest)
      → Answers i delete_doc
          (write r)
          (write_resp (record { status = write_accepted; latest_version = 0 }))
  finds_none :
      (r : ReadRequest) (ds : List ResponseDoc)
      → length ds ≡ length r.items
      → All (λ d. d ≡ missing) ds
      → Answers i delete_doc (read r) (read_resp ds)
  deletes :
      (r : DeleteRequest)
      → delete_doc (delete_to_proto r) ≡ deleted
      → Answers i delete_doc (delete_req r) delete_resp
  not_deleted :
      (r : DeleteRequest)
      → delete_doc (delete_to_proto r) ≡ refused
      → Answers i delete_doc (delete_req r) (err error_connecting)
  tells_user : Answers i delete_doc user (user_resp i.user_name)
  tells_thing : Answers i delete_doc thing (thing_resp i.cert_common_name)

-- The request does not call a connection that is nil.
abbrev pub Calls : (DeleteDocReq → Deletion) → DocRequest → Type 0
Calls delete_doc (delete_req r) = delete_doc (delete_to_proto r) ≢ nil_connection
Calls delete_doc (read r) = Unit {0}
Calls delete_doc (write r) = Unit {0}
Calls delete_doc user = Unit {0}
Calls delete_doc thing = Unit {0}
Calls delete_doc invalid = Unit {0}

-- Requests and the bytes that answer them, one for one, where the request has a value.
pub data Serves (i : Identity) (delete_doc : DeleteDocReq → Deletion)
    : List DocRequest → List Bytes → Type 0 where
  all_served : Serves i delete_doc [] []
  unanswered :
      {rs : List DocRequest} {bs : List Bytes}
      → Serves i delete_doc rs bs
      → Serves i delete_doc (invalid ∷ rs) bs
  served :
      {r : DocRequest} {rs : List DocRequest} {b : Bytes} {bs : List Bytes} (a : DocResponse)
      → Answers i delete_doc r a
      → unpack_response b ≡ some (a, [])
      → Serves i delete_doc rs bs
      → Serves i delete_doc (r ∷ rs) (b ∷ bs)

abbrev pub replies : List Act → List Bytes
replies [] = []
replies (reply b ∷ acts) = b ∷ replies acts
replies (report ∷ acts) = replies acts
replies (fetch_weather ∷ acts) = replies acts
replies (crash ∷ acts) = replies acts

-- The packets are the requests, as a client packs them.
pub data Packets : List DocRequest → List Bytes → Type 0 where
  no_more : Packets [] []
  packet :
      {r : DocRequest} {rs : List DocRequest} {b : Bytes} {bs : List Bytes}
      → fits_request r ≡ true
      → pack_request r ≡ some b
      → Packets rs bs
      → Packets (r ∷ rs) (b ∷ bs)

module _ (i : Identity) (listener : Bool) (delete_doc : DeleteDocReq → Deletion) where
  abbrev pub options : Options
  options = record { tokener = some i; has_listener = listener }

  -- A request is handled with no panic, and answered as promised, or not at all.
  data Dealt (r : DocRequest) : Handled → Type 0 where
    with_answer :
        (a : DocResponse) (failed fetch : Bool)
        → Answers i delete_doc r a
        → Ready a
        → Dealt r (done (some a) failed fetch)
    without : r ≡ invalid → (failed fetch : Bool) → Dealt r (done none failed fetch)

  deletion-Dealt :
      (r : DeleteRequest) (o : Deletion)
      → delete_doc (delete_to_proto r) ≡ o
      → o ≢ nil_connection
      → Dealt (delete_req r) (deletion_handled options delete_doc o)
  deletion-Dealt r deleted e n = with_answer _ _ _ (deletes r e) delete_resp-Ready
  deletion-Dealt r refused e n = with_answer _ _ _ (not_deleted r e) err-Ready
  deletion-Dealt r nil_connection e n = absurd (n refl)

  handle_request-Dealt :
      (r : DocRequest) (b : Bytes)
      → Short i.user_name
      → Short i.cert_common_name
      → pack_request r ≡ some b
      → Calls delete_doc r
      → Dealt r (handle_request options delete_doc r)
  unfolding handle_request write_handled read_handled delete_handled read_to_proto
  handle_request-Dealt user b hu ht e calls =
      with_answer _ _ _ tells_user (user_resp-Ready i.user_name hu)
  handle_request-Dealt thing b hu ht e calls =
      with_answer _ _ _ tells_thing (thing_resp-Ready i.cert_common_name ht)
  handle_request-Dealt (write r) b hu ht e calls = with_answer _ _ _ (accepts r) write_resp-Ready
  handle_request-Dealt (read r) b hu ht e calls =
      with_answer _ _ _ (finds_none r _ (length-repeat_missing r.items) (repeat_missing-All _))
        (read_resp-Ready r.items (items-lt r b e))
  handle_request-Dealt (delete_req r) b hu ht e calls = deletion-Dealt r _ refl calls
  handle_request-Dealt invalid b hu ht e calls = without refl _ _

  -- One reply, and no crash.
  abbrev OneReply : List Act → Bytes → Type 0
  OneReply acts b = (replies acts ≡ b ∷ []) × (ends_here options delete_doc acts ≡ false)

  acts_of-OneReply :
      (a : DocResponse) (failed fetch : Bool) (b : Bytes)
      → pack_response a ≡ some b
      → OneReply (acts_of options delete_doc (done (some a) failed fetch)) b
  unfolding acts_of
  acts_of-OneReply a failed true b e = elim (Bool-cases (failed && listener)) [
    | inl told ↦ rw (e, told) (refl, refl)
    | inr untold ↦ rw (e, untold) (refl, refl)
  ]
  acts_of-OneReply a failed false b e = elim (Bool-cases (failed && listener)) [
    | inl told ↦ rw (e, told) (refl, refl)
    | inr untold ↦ rw (e, untold) (refl, refl)
  ]

  acts_of-quiet :
      (failed fetch : Bool)
      → let acts = acts_of options delete_doc (done none failed fetch) in
        (replies acts ≡ []) × (ends_here options delete_doc acts ≡ false)
  unfolding acts_of
  acts_of-quiet failed true = elim (Bool-cases (failed && listener)) [
    | inl told ↦ rw told (refl, refl)
    | inr untold ↦ rw untold (refl, refl)
  ]
  acts_of-quiet failed false = elim (Bool-cases (failed && listener)) [
    | inl told ↦ rw told (refl, refl)
    | inr untold ↦ rw untold (refl, refl)
  ]

  replies-append : (xs ys : List Act) → replies (xs ++ ys) ≡ replies xs ++ replies ys
  replies-append [] ys = refl
  replies-append (reply b ∷ xs) ys = ap (◌∷◌ b) (replies-append xs ys)
  replies-append (report ∷ xs) ys = replies-append xs ys
  replies-append (fetch_weather ∷ xs) ys = replies-append xs ys
  replies-append (crash ∷ xs) ys = replies-append xs ys

  abbrev conn : List Bytes → List Act
  conn = handle_conn options delete_doc

  -- The replies to a packet that holds a request, and to those after it.
  conn-packet :
      (r : DocRequest) (p : Bytes) (ps : List Bytes)
      → unpack_request p ≡ some (r, [])
      → let acts = acts_of options delete_doc (handle_request options delete_doc r) in
        ends_here options delete_doc acts ≡ false
        → replies (conn (p ∷ ps)) ≡ replies acts ++ replies (conn ps)
  unfolding handle_conn unpack_request
  conn-packet r [] ps e f = cc e
  conn-packet r (b ∷ bs) ps e f =
      rw e (rw f (replies-append (on_unpacked options delete_doc (some (r, []))) (conn ps)))

  packet_unpack :
      (r : DocRequest) (b : Bytes)
      → fits_request r ≡ true
      → pack_request r ≡ some b
      → unpack_request b ≡ some (r, [])
  packet_unpack r b f e = ap unpack_request (sym (append-nil b)) ∙ unpack_request-pack r b [] f e

  response_unpack :
      (a : DocResponse) (b : Bytes)
      → fits_response a ≡ true
      → pack_response a ≡ some b
      → unpack_response b ≡ some (a, [])
  response_unpack a b f e =
      ap unpack_response (sym (append-nil b)) ∙ unpack_response-pack a b [] f e

  conn-handled :
      (r : DocRequest) (b : Bytes) (bs : List Bytes) (h : Handled) (out : List Bytes)
      → unpack_request b ≡ some (r, [])
      → handle_request options delete_doc r ≡ h
      → (replies (acts_of options delete_doc h) ≡ out)
        × (ends_here options delete_doc (acts_of options delete_doc h) ≡ false)
      → replies (conn (b ∷ bs)) ≡ out ++ replies (conn bs)
  conn-handled r b bs h out u k (all, on) =
      conn-packet r b bs u
        (ap (λ x. ends_here options delete_doc (acts_of options delete_doc x)) k ∙ on)
      ∙ ap (λ x. replies (acts_of options delete_doc x) ++ replies (conn bs)) k
      ∙ ap (λ x. x ++ replies (conn bs)) all

  -- A client's requests, packed one to a packet, are handled with no panic, and the bytes that are
  -- written back are, one for one and in order, what the process promises for each request, where the
  -- robot's names have less than 256 bytes and no deletion calls a connection that could not be made.
  pub handle_conn-Serves :
      (rs : List DocRequest) (ps : List Bytes)
      → length i.user_name < 256
      → length i.cert_common_name < 256
      → Packets rs ps
      → All (Calls delete_doc) rs
      → Serves i delete_doc rs (replies (handle_conn options delete_doc ps))
  handle_conn-Serves _ _ hu ht no_more calls = unfold handle_conn in all_served
  handle_conn-Serves _ _ hu ht (packet {r} {rs} {b} {bs} f e more) calls =
      go _ refl (handle_request-Dealt r b hu ht e calls.0)
        (handle_conn-Serves rs bs hu ht more calls.1)
    where
      go :
          (h : Handled)
          → handle_request options delete_doc r ≡ h
          → Dealt r h
          → Serves i delete_doc rs (replies (conn bs))
          → Serves i delete_doc (r ∷ rs) (replies (conn (b ∷ bs)))
      go _ k (with_answer a failed fetch says (x, ex, fx)) ih =
          subst (Serves i delete_doc (r ∷ rs))
            (sym (
              conn-handled r b bs _ (x ∷ []) (packet_unpack r b f e) k
                (acts_of-OneReply a failed fetch x ex)))
            (served a says (response_unpack a x fx ex) ih)
      go _ k (without none_asked failed fetch) ih =
          subst (Serves i delete_doc (r ∷ rs))
            (sym (conn-handled r b bs _ [] (packet_unpack r b f e) k (acts_of-quiet failed fetch)))
            (subst (λ z. Serves i delete_doc (z ∷ rs) (replies (conn bs))) (sym none_asked)
              (unanswered ih))

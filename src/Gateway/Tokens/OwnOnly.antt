-- ===== src/Gateway/Tokens/OwnOnly.antt =====
-- The gateway's update of the tokens against the jdocs process of this repository: what is left.
use vic_cloudless.Prelude.{
  length, Bool-cases, length-append, lt→ltb, All, ℕ, ◌<◌, ◌≡◌, refl, ap, ◌∙◌, ◌≢◌, ◌⊎◌, inl, inr,
  Bool, true, ◌&&◌, Option, none, some, List, [], ◌∷◌, ◌++◌, arith,
}
use vic_cloudless.Prelude.Text.{codes, Text}
use vic_cloudless.Clad.Wire.{
  pack_pair, Codec, Bytes, and_then, bound, text, word, pair, struct, pack_text, le_bytes,
}
use vic_cloudless.Clad.Lists.{list}
use vic_cloudless.Clad.Docs.{read_request, read_item, ReadItem, ReadRequest, ResponseDoc}
use vic_cloudless.Clad.Docs.Messages.{
  tagged, DocRequest, read, user, invalid, DocResponse, read_resp, user_resp, pack_request,
  fits_request, unpack_response,
}
use vic_cloudless.Jdocs.Translate.{DeleteDocReq}
use vic_cloudless.Jdocs.Server.{Identity, Deletion, missing, handle_conn}
use vic_cloudless.Jdocs.Refines.{
  Serves, Calls, all_served, unanswered, served, Answers, finds_none, tells_user, packet, no_more,
  replies, options, handle_conn-Serves,
}
use vic_cloudless.Gateway.Tokens.{
  something, ClientToken, Manager, document, update_tokens, decode_token_jdoc,
}
use vic_cloudless.Gateway.Tokens.Fetch.{
  send_block, get_ids, fetch_tokens, tokens_request, response_in, first_document,
}

abbrev head : List Bytes → Option Bytes
head [] = none
head (b ∷ bs) = some b

module _ (i : Identity) (listener : Bool) (delete_doc : DeleteDocReq → Deletion) where
  -- The socket to the jdocs process.
  abbrev pub jdocs_socket : Bytes → Option Bytes
  jdocs_socket b = head (replies (handle_conn (options i listener delete_doc) delete_doc (b ∷ [])))

  -- One request over the socket is answered as promised.
  abbrev Answered : DocRequest → List Bytes → Type 0
  Answered r bs =
      (b : Bytes) × (a : DocResponse) × (bs ≡ b ∷ [])
      × Answers i delete_doc r a
      × (unpack_response b ≡ some (a, []))

  Serves-one :
      (r : DocRequest) (bs : List Bytes)
      → r ≢ invalid
      → Serves i delete_doc (r ∷ []) bs
      → Answered r bs
  Serves-one _ _ n (unanswered s) = absurd (n refl)
  Serves-one _ _ n (served a x u all_served) = (_, a, refl, x, u)

  socket-Answers :
      (r : DocRequest) (b : Bytes)
      → length i.user_name < 256
      → length i.cert_common_name < 256
      → r ≢ invalid
      → fits_request r ≡ true
      → pack_request r ≡ some b
      → Calls delete_doc r
      → (a : DocResponse) × Answers i delete_doc r a
        × (and_then (jdocs_socket b) (response_in jdocs_socket none) ≡ some a)
  unfolding unpack_response
  socket-Answers r b hu ht n f e calls = received _ (
      Serves-one r _ n (
        handle_conn-Serves i listener delete_doc (r ∷ []) (b ∷ []) hu ht (packet f e no_more)
          (calls, tt)))
    where
      received :
          (bs : List Bytes)
          → Answered r bs
          → (a : DocResponse) × Answers i delete_doc r a
            × (and_then (head bs) (response_in jdocs_socket none) ≡ some a)
      received bs (x, a, one, says, u) = (
        a,
        says,
        ap (λ l. and_then (head l) (response_in jdocs_socket none)) one
            ∙ ap (λ o. and_then o (λ q. some q.0)) u,
      )

  of_user : (a : DocResponse) → Answers i delete_doc user a → a ≡ user_resp i.user_name
  of_user _ tells_user = refl

  of_read :
      (r : ReadRequest) (a : DocResponse)
      → Answers i delete_doc (read r) a
      → (ds : List ResponseDoc) × (a ≡ read_resp ds)
        × (length ds ≡ length r.items)
        × All (λ d. d ≡ missing) ds
  of_read r _ (finds_none _ ds l all) = (ds, refl, l, all)

  own_user :
      length i.user_name < 256
      → length i.cert_common_name < 256
      → send_block jdocs_socket none user ≡ some (user_resp i.user_name)
  unfolding send_block pack_request fits_request
  own_user hu ht =
      let (a, says, e) = socket-Answers user (3 ∷ []) hu ht (λ x. cc x) refl refl tt in
      e ∙ ap some (of_user a says)

  long_text-packs :
      (t : Text) → length t < 65536 → (text 2 true).pack t ≡ some (le_bytes 2 (length t) ++ t)
  unfolding text pack_text
  long_text-packs t h = let e = lt→ltb (length t) (bound 2) h in rw e refl

  pair_packs :
      {A B : Type 0} (ca : Codec A) (cb : Codec B) (a : A) (b : B) {x y : Bytes}
      → ca.pack a ≡ some x
      → cb.pack b ≡ some y
      → pack_pair ca cb (a, b) ≡ some (x ++ y)
  pair_packs ca cb a b p q = rw (p, q) refl

  tokens_request-packs :
      (u e : Text)
      → length u < 256
      → length e < 256
      → (b : Bytes) × (pack_request (tokens_request jdocs_socket none (u, e)) ≡ some b)
  unfolding pack_request read_request read_item pair struct list text word pack_text
  tokens_request-packs u e hu he =
      let k : length (codes "vic:" ++ e) < 65536 = omega (arith, length-append (codes "vic:") e) in
      let items : List ReadItem =
        record { item_name = codes "vic.AppTokens"; my_doc_version = 0 } ∷ [] in
      let second =
        pair_packs (text 2 true) (list 2 read_item) (codes "vic:" ++ e) items
          {y = le_bytes 2 1 ++ (le_bytes 1 13 ++ codes "vic.AppTokens") ++ le_bytes 8 0 ++ []}
          (long_text-packs (codes "vic:" ++ e) k) refl in
      (
        _,
        ap (tagged 1) (
            pair_packs (text 2 true) (pair (text 2 true) (list 2 read_item)) u
              (codes "vic:" ++ e, items) (long_text-packs u (omega arith)) second),
      )

  module _ (e runtime : Text) (matches : Text → Text → Bool) where
    request_fits : (u : Text) → fits_request (tokens_request jdocs_socket none (u, e)) ≡ true
    unfolding fits_request read_request read_item pair struct list text word
    request_fits u = refl

    one_missing :
        (ds : List ResponseDoc)
        → length ds ≡ 1
        → All (λ d. d ≡ missing) ds
        → first_document jdocs_socket (some e) ds ≡ document []
    one_missing [] l all = cc l
    one_missing (d ∷ ds) l (same, all) = ap (λ (x : ResponseDoc). document x.found.json_doc) same

    own_document :
        length i.user_name < 256
        → length i.cert_common_name < 256
        → length e < 256
        → fetch_tokens jdocs_socket (some e) ≡ document []
    unfolding fetch_tokens get_ids send_block
    own_document hu ht he =
        let (b, p) = tokens_request-packs i.user_name e hu he in
        let (a, says, q) = socket-Answers _ b hu ht (λ x. cc x) (request_fits i.user_name) p tt in
        let (ds, is, l, all) = of_read _ a says in
        rw (own_user hu ht, p, q, is) (one_missing ds l all)

    -- Where the robot's names and its number have less than 256 bytes and the JSON decoder refuses the
    -- empty text, an update of the tokens that asks this repository's jdocs process replaces whatever
    -- tokens there were by the single placeholder, and the stored file is kept or removed, not written.
    pub fetch_tokens-update_tokens :
        (unmarshal : List ClientToken → Text → Option (List ClientToken)) (now : ℕ)
        (removed written : Bool) (m : Manager)
        → length i.user_name < 256
        → length i.cert_common_name < 256
        → length e < 256
        → ((old : List ClientToken) → unmarshal old [] ≡ none)
        → let m' =
            update_tokens runtime matches unmarshal now removed written m
              (fetch_tokens jdocs_socket (some e)) in
          (m'.client_tokens ≡ something ∷ []) × ((m'.file ≡ m.file) ⊎ (m'.file ≡ none))
    unfolding update_tokens decode_token_jdoc
    fetch_tokens-update_tokens unmarshal now removed written m hu ht he bad =
        rw (own_document hu ht he, bad)
          (
            refl,
            elim (Bool-cases (m.force_clear_file && removed)) [
              | inl gone ↦ rw gone (inr refl)
              | inr kept ↦ rw kept (inl refl)
            ],
          )

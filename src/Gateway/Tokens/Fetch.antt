-- ===== src/Gateway/Tokens/Fetch.antt =====
-- How `UpdateTokens` of cloud/tokens.go asks the jdocs process for the tokens: `getIDs` and
-- `sendBlock`. The socket is a parameter, from what is written to what is read back; so is the robot's
-- number, which may be unreadable.
use vic_cloudless.Prelude.{Option, none, some, List, [], ◌∷◌, ◌++◌}
use vic_cloudless.Prelude.Text.{codes, Text}
use vic_cloudless.Clad.Wire.{Bytes, and_then}
use vic_cloudless.Clad.Docs.{ResponseDoc}
use vic_cloudless.Clad.Docs.Messages.{
  DocRequest, read, user, DocResponse, read_resp, user_resp, write_resp, delete_resp, err,
  thing_resp, invalid_resp, pack_request, unpack_response,
}
use vic_cloudless.Gateway.Tokens.{Read, failed, no_items, document}

module _ (socket : Bytes → Option Bytes) (esn : Option Text) where
  abbrev pub response_in : Bytes → Option DocResponse
  unfolding unpack_response
  response_in b = and_then (unpack_response b) (λ r. some r.0)

  -- `sendBlock`; `none` is any of its errors.
  unfoldable pub send_block : DocRequest → Option DocResponse
  unfolding pack_request response_in
  send_block r = and_then (pack_request r) (λ b. and_then (socket b) response_in)

  abbrev user_id : DocResponse → Option Text
  user_id (user_resp u) = some u
  user_id (write_resp r) = none
  user_id (read_resp ds) = none
  user_id delete_resp = none
  user_id (err e) = none
  user_id (thing_resp t) = none
  user_id invalid_resp = none

  -- `getIDs`: the user, and the robot's number.
  unfoldable pub get_ids : Option (Text × Text)
  unfolding send_block
  get_ids =
      and_then (send_block user) (λ r. and_then (user_id r) (λ u. and_then esn (λ e. some (u, e))))

  abbrev pub first_document : List ResponseDoc → Read
  first_document [] = no_items
  first_document (d ∷ ds) = document d.found.json_doc

  abbrev document_in : Option DocResponse → Read
  document_in none = failed
  document_in (some (read_resp ds)) = first_document ds
  document_in (some (user_resp u)) = failed
  document_in (some (write_resp r)) = failed
  document_in (some delete_resp) = failed
  document_in (some (err e)) = failed
  document_in (some (thing_resp t)) = failed
  document_in (some invalid_resp) = failed

  -- The request for the tokens of a user on this robot.
  abbrev pub tokens_request : Text × Text → DocRequest
  tokens_request (u, e) = read (record {
    account = u;
    thing = codes "vic:" ++ e;
    items = record { item_name = codes "vic.AppTokens"; my_doc_version = 0 } ∷ [];
  })

  abbrev read_with : Option (Text × Text) → Read
  unfolding send_block
  read_with none = failed
  read_with (some ids) = document_in (send_block (tokens_request ids))

  unfoldable pub fetch_tokens : Read
  unfolding get_ids read_with
  fetch_tokens = read_with get_ids

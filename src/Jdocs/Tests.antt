-- ===== src/Jdocs/Tests.antt =====
-- The process of the jdocs on concrete input.
use vic_cloudless.Prelude.{◌≡◌, refl, true, some, List, [], ◌∷◌, arith}
use vic_cloudless.Prelude.Text.{codes}
use vic_cloudless.Clad.Wire.{Bytes}
use vic_cloudless.Clad.Docs.{DeleteRequest, delete_request}
use vic_cloudless.Clad.Wire.{text, pair, struct, pack_text, le_bytes}
use vic_cloudless.Clad.Docs.Messages.{
  DocRequest, user, thing, delete_req, pack_request, fits_request,
}
use vic_cloudless.Jdocs.Translate.{DeleteDocReq}
use vic_cloudless.Jdocs.Server.{Identity, Deletion, deleted, handle_conn}
use vic_cloudless.Jdocs.Refines.{
  Serves, Packets, packet, no_more, replies, options, handle_conn-Serves,
}

abbrev robot : Identity
robot = record { user_name = codes "me"; cert_common_name = codes "vic" }

abbrev reached : DeleteDocReq → Deletion
reached r = deleted

abbrev deletion : DeleteRequest
deletion = record { account = codes "u"; thing = codes "t"; doc_name = codes "d" }

abbrev deletion_packed : Bytes
deletion_packed = 2 ∷ 1 ∷ 0 ∷ 117 ∷ 1 ∷ 0 ∷ 116 ∷ 1 ∷ 0 ∷ 100 ∷ []

abbrev requests : List DocRequest
requests = user ∷ delete_req deletion ∷ thing ∷ []

abbrev packets : List Bytes
packets = (3 ∷ []) ∷ deletion_packed ∷ (4 ∷ []) ∷ []

deletion_packs : pack_request (delete_req deletion) ≡ some deletion_packed
unfolding pack_request delete_request text pair struct pack_text le_bytes
deletion_packs = refl

deletion_fits : fits_request (delete_req deletion) ≡ true
unfolding fits_request delete_request text pair struct
deletion_fits = refl

packets-Packets : Packets requests packets
unfolding pack_request fits_request
packets-Packets = packet refl refl (packet deletion_fits deletion_packs (packet refl refl no_more))

handle_conn-Serves_example :
    Serves robot reached requests
      (replies (handle_conn (options robot true reached) reached packets))
handle_conn-Serves_example =
    handle_conn-Serves robot true reached requests packets (omega arith) (omega arith)
      packets-Packets (tt, ((λ e. cc e), (tt, tt)))

-- ===== src/Jdocs/Server.antt =====
-- The process of the jdocs: `handleConn` of internal/jdocs/server.go and the requests of
-- internal/jdocs/client.go. Writes are accepted and reads find nothing, with no service behind them;
-- a deletion asks the service, which is a parameter.
use vic_cloudless.Prelude.{
  if◌then◌else◌, ℕ, Bool, true, false, ◌&&◌, Option, none, some, List, [], ◌∷◌, ◌++◌,
}
use vic_cloudless.Prelude.Text.{Text, contains, codes}
use vic_cloudless.Clad.Wire.{Bytes}
use vic_cloudless.Clad.Docs.{Doc, ResponseDoc, write_accepted, read_not_found, error_connecting}
use vic_cloudless.Clad.Docs.Messages.{
  DocRequest, write, read, delete_req, user, thing, invalid, DocResponse, write_resp, read_resp,
  delete_resp, err, user_resp, thing_resp, pack_response, unpack_request,
}
use vic_cloudless.Jdocs.Translate.{
  WriteDocReq, ReadDocsReq, DeleteDocReq, write_to_proto, read_to_proto, delete_to_proto,
}

-- What the token's accessor says of the robot.
pub record Identity : Type 0 where
  pub user_name : Text
  pub cert_common_name : Text

-- `opts.tokener` and whether there is a listener for errors.
pub record Options : Type 0 where
  pub tokener : Option Identity
  pub has_listener : Bool

-- What handling a request comes to: a response, whether there is an error, and whether the weather is
-- fetched. `panic` is the call of a tokener or of a connection that is nil.
pub data Handled : Type 0 where
  done : Option DocResponse → Bool → Bool → Handled
  panic : Handled

abbrev empty_doc : Doc
empty_doc = record { doc_version = 0; fmt_version = 0; metadata = []; json_doc = [] }

abbrev pub missing : ResponseDoc
missing = record { status = read_not_found; found = empty_doc }

abbrev pub repeat_missing : List (Text × ℕ) → List ResponseDoc
repeat_missing [] = []
repeat_missing (i ∷ is) = missing ∷ repeat_missing is

-- `writeRequest`
unfoldable pub write_handled : WriteDocReq → Handled
write_handled req =
    done (some (write_resp (record { status = write_accepted; latest_version = 0 }))) false
      (contains req.doc_name (codes "RobotSettings"))

-- `readRequest`
unfoldable pub read_handled : ReadDocsReq → Handled
read_handled req = done (some (read_resp (repeat_missing req.items))) false false

-- What `DeleteDoc` comes to: the service deletes, or gives an error, or the connection is the nil that
-- `newConn` goes on with where dialing fails, whose error it drops.
pub data Deletion : Type 0 where
  deleted refused nil_connection : Deletion

-- What is done for one packet.
pub data Act : Type 0 where
  reply : Bytes → Act
  report : Act
  fetch_weather : Act
  crash : Act

module _ (opts : Options) (delete_doc : DeleteDocReq → Deletion) where
  abbrev pub deletion_handled : Deletion → Handled
  deletion_handled deleted = done (some delete_resp) false false
  deletion_handled refused = done (some (err error_connecting)) true false
  deletion_handled nil_connection = panic

  -- `deleteRequest`
  unfoldable pub delete_handled : DeleteDocReq → Handled
  delete_handled req = deletion_handled (delete_doc req)

  -- `handleUserRequest`
  abbrev user_of : Option Identity → Text
  user_of none = []
  user_of (some i) = i.user_name

  -- `handleThingRequest`
  abbrev thing_of : Option Identity → Handled
  thing_of none = panic
  thing_of (some i) = done (some (thing_resp i.cert_common_name)) false false

  -- `handleRequest`: first what needs no connection, then the rest.
  unfoldable pub handle_request : DocRequest → Handled
  unfolding write_handled read_handled delete_handled write_to_proto read_to_proto delete_to_proto
  handle_request user = done (some (user_resp (user_of opts.tokener))) false false
  handle_request thing = thing_of opts.tokener
  handle_request (read r) = read_handled (read_to_proto r)
  handle_request (write r) = write_handled (write_to_proto r)
  handle_request (delete_req r) = delete_handled (delete_to_proto r)
  handle_request invalid = done none true false

  abbrev packed : Option Bytes → List Act
  packed none = []
  packed (some b) = reply b ∷ []

  abbrev responded : Option DocResponse → List Act
  unfolding pack_response
  responded none = []
  responded (some r) = packed (pack_response r)

  abbrev when : Bool → Act → List Act
  when b a = if b then a ∷ [] else []

  unfoldable pub acts_of : Handled → List Act
  unfolding responded
  acts_of panic = crash ∷ []
  acts_of (done r failed fetch) =
      when fetch fetch_weather ++ (when (failed && opts.has_listener) report ++ responded r)

  -- What one packet leads to; bytes that are left over are ignored.
  abbrev pub on_unpacked : Option (DocRequest × Bytes) → List Act
  unfolding handle_request acts_of
  on_unpacked none = []
  on_unpacked (some (r, rest)) = acts_of (handle_request r)

  -- `handleConn`: an empty packet ends it, and so does a panic.
  abbrev pub ends_here : List Act → Bool
  ends_here (crash ∷ acts) = true
  ends_here _ = false

  unfoldable pub handle_conn : List Bytes → List Act
  unfolding on_unpacked unpack_request
  handle_conn [] = []
  handle_conn ([] ∷ ps) = []
  handle_conn ((b ∷ bs) ∷ ps) =
      let acts = on_unpacked (unpack_request (b ∷ bs)) in
      let rest = handle_conn ps in if ends_here acts then acts else acts ++ rest

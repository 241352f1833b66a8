-- ===== src/Jdocs/Translate.antt =====
-- Between CLAD and the messages of the jdocs service: internal/jdocs/translate.go. The service's types
-- are those of its gRPC interface, the fields that are set or read.
use vic_cloudless.Prelude.{ℕ, Option, none, some, List, [], ◌∷◌, map}
use vic_cloudless.Prelude.Text.{Text}
use vic_cloudless.Clad.Docs.{
  Doc, WriteRequest, ReadItem, ReadRequest, DeleteRequest, WriteResponse, ResponseDoc,
  write_accepted, write_rejected_doc_version, write_rejected_fmt_version, read_unchanged,
  read_changed, read_not_found,
}

-- `pb.Jdoc`
pub record Jdoc : Type 0 where
  pub version : ℕ
  pub fmt : ℕ
  pub client_metadata : Text
  pub json : Text

pub record WriteDocReq : Type 0 where
  pub user_id : Text
  pub thing : Text
  pub doc_name : Text
  pub jdoc : Jdoc

-- The items: names and versions.
pub record ReadDocsReq : Type 0 where
  pub user_id : Text
  pub thing : Text
  pub items : List (Text × ℕ)

pub record DeleteDocReq : Type 0 where
  pub user_id : Text
  pub thing : Text
  pub doc_name : Text

pub data WriteDocStatus : Type 0 where
  accepted rejected_bad_doc_version rejected_bad_fmt_version : WriteDocStatus
  other_status : ℕ → WriteDocStatus

pub data ReadDocsStatus : Type 0 where
  unchanged changed not_found : ReadDocsStatus
  other_status : ℕ → ReadDocsStatus

pub doc_to_proto : Doc → Jdoc
doc_to_proto c = record {
  version = c.doc_version;
  fmt = c.fmt_version;
  client_metadata = c.metadata;
  json = c.json_doc;
}

pub doc_to_clad : Jdoc → Doc
doc_to_clad p = record {
  doc_version = p.version;
  fmt_version = p.fmt;
  metadata = p.client_metadata;
  json_doc = p.json;
}

unfoldable pub write_to_proto : WriteRequest → WriteDocReq
unfolding doc_to_proto
write_to_proto c = record {
  user_id = c.account;
  thing = c.thing;
  doc_name = c.doc_name;
  jdoc = doc_to_proto c.written;
}

unfoldable pub read_to_proto : ReadRequest → ReadDocsReq
read_to_proto c = record {
  user_id = c.account;
  thing = c.thing;
  items = map (λ (i : ReadItem). (i.item_name, i.my_doc_version)) c.items;
}

unfoldable pub delete_to_proto : DeleteRequest → DeleteDocReq
delete_to_proto c = record { user_id = c.account; thing = c.thing; doc_name = c.doc_name }

-- `writeStatusMap`; a key that is missing gives the zero value, which is "accepted".
pub write_status : WriteDocStatus → ℕ
write_status accepted = write_accepted
write_status rejected_bad_doc_version = write_rejected_doc_version
write_status rejected_bad_fmt_version = write_rejected_fmt_version
write_status (WriteDocStatus.other_status n) = write_accepted

-- `readStatusMap`; a key that is missing gives the zero value, which is "unchanged".
pub read_status : ReadDocsStatus → ℕ
read_status unchanged = read_unchanged
read_status changed = read_changed
read_status not_found = read_not_found
read_status (ReadDocsStatus.other_status n) = read_unchanged

-- `protoWriteResp.toClad`, of the status and the latest version.
pub write_resp_to_clad : WriteDocStatus → ℕ → WriteResponse
unfolding write_status
write_resp_to_clad s latest = record { status = write_status s; latest_version = latest }

abbrev put_first : ResponseDoc → Option (List ResponseDoc) → Option (List ResponseDoc)
put_first d none = none
put_first d (some ds) = some (d ∷ ds)

-- `protoReadResp.toClad`, of statuses and documents; a document that is nil is a panic.
pub read_resp_to_clad : List (ReadDocsStatus × Option Jdoc) → Option (List ResponseDoc)
unfolding read_status doc_to_clad
read_resp_to_clad [] = some []
read_resp_to_clad ((s, none) ∷ rest) = none
read_resp_to_clad ((s, some p) ∷ rest) =
    put_first (record { status = read_status s; found = doc_to_clad p }) (read_resp_to_clad rest)

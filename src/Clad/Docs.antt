-- ===== src/Clad/Docs.antt =====
-- The structures of internal/clad/cloud/docs.go, that the clients and the process of the jdocs
-- exchange, and their codecs. An enumeration is its byte, since any byte is read.
pub mod Messages
use vic_cloudless.Prelude.{ℕ, refl, true, false, List}
use vic_cloudless.Prelude.Text.{Text}
use vic_cloudless.Clad.Wire.{Codec, word, text, pair, struct}
use vic_cloudless.Clad.Lists.{list}

pub record Doc : Type 0 where
  pub doc_version : ℕ
  pub fmt_version : ℕ
  pub metadata : Text
  pub json_doc : Text

-- The length of `JsonDoc` is not tested.
unfoldable pub doc : Codec Doc
unfolding word text pair struct
doc =
    struct (pair (word 8) (pair (word 8) (pair (text 1 true) (text 4 false))))
      (λ d. (d.doc_version, (d.fmt_version, (d.metadata, d.json_doc))))
      (λ t. record {
        doc_version = t.0;
        fmt_version = t.1.0;
        metadata = t.1.1.0;
        json_doc = t.1.1.1;
      })
      (λ d. refl)

pub record WriteRequest : Type 0 where
  pub account : Text
  pub thing : Text
  pub doc_name : Text
  pub written : Doc

unfoldable pub write_request : Codec WriteRequest
unfolding doc text pair struct
write_request =
    struct (pair (text 2 true) (pair (text 2 true) (pair (text 2 true) doc)))
      (λ w. (w.account, (w.thing, (w.doc_name, w.written))))
      (λ t. record { account = t.0; thing = t.1.0; doc_name = t.1.1.0; written = t.1.1.1 })
      (λ w. refl)

pub record ReadItem : Type 0 where
  pub item_name : Text
  pub my_doc_version : ℕ

unfoldable pub read_item : Codec ReadItem
unfolding word text pair struct
read_item =
    struct (pair (text 1 true) (word 8)) (λ r. (r.item_name, r.my_doc_version))
      (λ t. record { item_name = t.0; my_doc_version = t.1 }) (λ r. refl)

pub record ReadRequest : Type 0 where
  pub account : Text
  pub thing : Text
  pub items : List ReadItem

unfoldable pub read_request : Codec ReadRequest
unfolding read_item text pair struct list
read_request =
    struct (pair (text 2 true) (pair (text 2 true) (list 2 read_item)))
      (λ r. (r.account, (r.thing, r.items)))
      (λ t. record { account = t.0; thing = t.1.0; items = t.1.1 }) (λ r. refl)

pub record DeleteRequest : Type 0 where
  pub account : Text
  pub thing : Text
  pub doc_name : Text

unfoldable pub delete_request : Codec DeleteRequest
unfolding text pair struct
delete_request =
    struct (pair (text 2 true) (pair (text 2 true) (text 2 true)))
      (λ d. (d.account, (d.thing, d.doc_name)))
      (λ t. record { account = t.0; thing = t.1.0; doc_name = t.1.1 }) (λ d. refl)

-- `WriteStatus`
abbrev pub write_accepted : ℕ
write_accepted = 0

abbrev pub write_rejected_doc_version : ℕ
write_rejected_doc_version = 1

abbrev pub write_rejected_fmt_version : ℕ
write_rejected_fmt_version = 2

-- `ReadStatus`
abbrev pub read_unchanged : ℕ
read_unchanged = 0

abbrev pub read_changed : ℕ
read_changed = 1

abbrev pub read_not_found : ℕ
read_not_found = 2

-- `DocError`
abbrev pub error_connecting : ℕ
error_connecting = 0

pub record WriteResponse : Type 0 where
  pub status : ℕ
  pub latest_version : ℕ

unfoldable pub write_response : Codec WriteResponse
unfolding word pair struct
write_response =
    struct (pair (word 1) (word 8)) (λ w. (w.status, w.latest_version))
      (λ t. record { status = t.0; latest_version = t.1 }) (λ w. refl)

pub record ResponseDoc : Type 0 where
  pub status : ℕ
  pub found : Doc

unfoldable pub response_doc : Codec ResponseDoc
unfolding word doc pair struct
response_doc =
    struct (pair (word 1) doc) (λ r. (r.status, r.found))
      (λ t. record { status = t.0; found = t.1 }) (λ r. refl)

-- `ReadResponse` is its list of documents.
unfoldable pub read_response : Codec (List ResponseDoc)
unfolding list response_doc
read_response = list 2 response_doc

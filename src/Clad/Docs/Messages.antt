-- ===== src/Clad/Docs/Messages.antt =====
-- The unions `DocRequest` and `DocResponse` of internal/clad/cloud/docs.go: a tag, and the structure
-- that it announces.
use vic_cloudless.Prelude.{
  ltb, if◌then◌else◌, ◌==◌, ℕ, ◌≡◌, sym, ap, ◌∙◌, Bool, true, Option, none, some, List, [], ◌∷◌,
  ◌++◌,
}
use vic_cloudless.Prelude.Text.{Text}
use vic_cloudless.Clad.Wire.{Bytes, Codec, and_then, and_then-eq_some, text}
use vic_cloudless.Clad.Docs.{
  WriteRequest, ReadRequest, DeleteRequest, WriteResponse, ResponseDoc, write_request, read_request,
  delete_request, write_response, read_response,
}

-- `invalid` is the union without a value.
pub data DocRequest : Type 0 where
  write : WriteRequest → DocRequest
  read : ReadRequest → DocRequest
  delete_req : DeleteRequest → DocRequest
  user thing invalid : DocRequest

pub data DocResponse : Type 0 where
  write_resp : WriteResponse → DocResponse
  read_resp : List ResponseDoc → DocResponse
  delete_resp : DocResponse
  err : ℕ → DocResponse
  user_resp thing_resp : Text → DocResponse
  invalid_resp : DocResponse

abbrev pub tagged : ℕ → Option Bytes → Option Bytes
tagged tag o = and_then o (λ b. some (tag ∷ b))

abbrev under : {A B : Type 0} → (A → B) → Option (A × Bytes) → Option (B × Bytes)
under c o = and_then o (λ r. some (c r.0, r.1))

unfoldable pub pack_request : DocRequest → Option Bytes
unfolding write_request read_request delete_request
pack_request (write r) = tagged 0 (write_request.pack r)
pack_request (read r) = tagged 1 (read_request.pack r)
pack_request (delete_req r) = tagged 2 (delete_request.pack r)
pack_request user = some (3 ∷ [])
pack_request thing = some (4 ∷ [])
pack_request invalid = some (255 ∷ [])

-- `unpackStruct`, behind the tag.
abbrev request_of : ℕ → Bytes → Option (DocRequest × Bytes)
request_of tag bs =
    if tag == 0
    then under write (write_request.unpack bs)
    else if tag == 1
    then under read (read_request.unpack bs)
    else if tag == 2
    then under delete_req (delete_request.unpack bs)
    else if tag == 3
    then some (user, bs)
    else if tag == 4
    then some (thing, bs)
    else if tag == 255
    then some (invalid, bs)
    else none

unfoldable pub unpack_request : Bytes → Option (DocRequest × Bytes)
unfolding write_request read_request delete_request
unpack_request [] = none
unpack_request (tag ∷ bs) = request_of tag bs

unfoldable pub fits_request : DocRequest → Bool
unfolding write_request read_request delete_request
fits_request (write r) = write_request.fits r
fits_request (read r) = read_request.fits r
fits_request (delete_req r) = delete_request.fits r
fits_request user = true
fits_request thing = true
fits_request invalid = true

-- The codec of a text in its one field, of `UserResponse` and `ThingResponse`.
abbrev pub short_text : Codec Text
unfolding text
short_text = text 1 true

unfoldable pub pack_response : DocResponse → Option Bytes
unfolding write_response read_response short_text
pack_response (write_resp r) = tagged 0 (write_response.pack r)
pack_response (read_resp r) = tagged 1 (read_response.pack r)
pack_response delete_resp = some (2 ∷ [])
pack_response (err e) = tagged 3 (some (e ∷ []))
pack_response (user_resp t) = tagged 4 (short_text.pack t)
pack_response (thing_resp t) = tagged 5 (short_text.pack t)
pack_response invalid_resp = some (255 ∷ [])

abbrev err_of : Bytes → Option (DocResponse × Bytes)
err_of [] = none
err_of (e ∷ bs) = some (err e, bs)

abbrev response_of : ℕ → Bytes → Option (DocResponse × Bytes)
response_of tag bs =
    if tag == 0
    then under write_resp (write_response.unpack bs)
    else if tag == 1
    then under read_resp (read_response.unpack bs)
    else if tag == 2
    then some (delete_resp, bs)
    else if tag == 3
    then err_of bs
    else if tag == 4
    then under user_resp (short_text.unpack bs)
    else if tag == 5
    then under thing_resp (short_text.unpack bs)
    else if tag == 255
    then some (invalid_resp, bs)
    else none

unfoldable pub unpack_response : Bytes → Option (DocResponse × Bytes)
unfolding write_response read_response short_text
unpack_response [] = none
unpack_response (tag ∷ bs) = response_of tag bs

unfoldable pub fits_response : DocResponse → Bool
unfolding write_response read_response short_text
fits_response (write_resp r) = write_response.fits r
fits_response (read_resp r) = read_response.fits r
fits_response delete_resp = true
fits_response (err e) = ltb e 256
fits_response (user_resp t) = short_text.fits t
fits_response (thing_resp t) = short_text.fits t
fits_response invalid_resp = true

module _ {A B : Type 0} (c : Codec A) (build : A → B) where
  under-tagged :
      (a : A) (b rest : Bytes) (tag : ℕ)
      → c.fits a ≡ true
      → tagged tag (c.pack a) ≡ some b
      → (b' : Bytes) × (b ≡ tag ∷ b') × (under build (c.unpack (b' ++ rest)) ≡ some (build a, rest))
  under-tagged a b rest tag f e =
      let (y, ey, e') = and_then-eq_some (c.pack a) _ e in
      (y, cc e', ap (under build) (c.unpack-pack a y rest f ey))

-- A request is read as it was written, whatever follows it.
pub unpack_request-pack :
    (r : DocRequest) (b rest : Bytes)
    → fits_request r ≡ true
    → pack_request r ≡ some b
    → unpack_request (b ++ rest) ≡ some (r, rest)
unfolding unpack_request pack_request fits_request
unpack_request-pack (write r) b rest f e =
    let (y, ey, e') = under-tagged write_request write r b rest 0 f e in
    ap (λ z. unpack_request (z ++ rest)) ey ∙ e'
unpack_request-pack (read r) b rest f e =
    let (y, ey, e') = under-tagged read_request read r b rest 1 f e in
    ap (λ z. unpack_request (z ++ rest)) ey ∙ e'
unpack_request-pack (delete_req r) b rest f e =
    let (y, ey, e') = under-tagged delete_request delete_req r b rest 2 f e in
    ap (λ z. unpack_request (z ++ rest)) ey ∙ e'
unpack_request-pack user b rest f e =
    let same : 3 ∷ [] ≡ b = cc e in ap (λ z. unpack_request (z ++ rest)) (sym same)
unpack_request-pack thing b rest f e =
    let same : 4 ∷ [] ≡ b = cc e in ap (λ z. unpack_request (z ++ rest)) (sym same)
unpack_request-pack invalid b rest f e =
    let same : 255 ∷ [] ≡ b = cc e in ap (λ z. unpack_request (z ++ rest)) (sym same)

-- A response is read as it was written, whatever follows it.
pub unpack_response-pack :
    (r : DocResponse) (b rest : Bytes)
    → fits_response r ≡ true
    → pack_response r ≡ some b
    → unpack_response (b ++ rest) ≡ some (r, rest)
unfolding unpack_response pack_response fits_response
unpack_response-pack (write_resp r) b rest f e =
    let (y, ey, e') = under-tagged write_response write_resp r b rest 0 f e in
    ap (λ z. unpack_response (z ++ rest)) ey ∙ e'
unpack_response-pack (read_resp r) b rest f e =
    let (y, ey, e') = under-tagged read_response read_resp r b rest 1 f e in
    ap (λ z. unpack_response (z ++ rest)) ey ∙ e'
unpack_response-pack delete_resp b rest f e =
    let same : 2 ∷ [] ≡ b = cc e in ap (λ z. unpack_response (z ++ rest)) (sym same)
unpack_response-pack (err x) b rest f e =
    let same : 3 ∷ x ∷ [] ≡ b = cc e in ap (λ z. unpack_response (z ++ rest)) (sym same)
unpack_response-pack (user_resp t) b rest f e =
    let (y, ey, e') = under-tagged short_text user_resp t b rest 4 f e in
    ap (λ z. unpack_response (z ++ rest)) ey ∙ e'
unpack_response-pack (thing_resp t) b rest f e =
    let (y, ey, e') = under-tagged short_text thing_resp t b rest 5 f e in
    ap (λ z. unpack_response (z ++ rest)) ey ∙ e'
unpack_response-pack invalid_resp b rest f e =
    let same : 255 ∷ [] ≡ b = cc e in ap (λ z. unpack_response (z ++ rest)) (sym same)

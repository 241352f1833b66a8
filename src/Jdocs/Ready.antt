-- ===== src/Jdocs/Ready.antt =====
-- That the responses of the jdocs process can be written, and are read as they were.
use vic_cloudless.Prelude.{
  lt→ltb, ltb, length, All, ℕ, suc, ◌<◌, ◌≡◌, refl, ap, true, some, List, [], ◌∷◌, ◌++◌, map, arith,
}
use vic_cloudless.Prelude.Text.{Text}
use vic_cloudless.Clad.Wire.{
  Bytes, le_bytes, and_then, and_then-eq_some, bound, text, word, pair, struct, pack_text,
}
use vic_cloudless.Clad.Lists.{list, pack_items, fits_items, pack_list, pack_list-lt}
use vic_cloudless.Clad.Docs.{
  ReadRequest, ReadItem, doc, response_doc, read_response, read_request, read_item, write_response,
  write_accepted, error_connecting,
}
use vic_cloudless.Clad.Docs.Messages.{
  read, DocResponse, write_resp, read_resp, delete_resp, err, user_resp, thing_resp, pack_response,
  pack_request, fits_response, short_text, tagged,
}
use vic_cloudless.Jdocs.Server.{missing, repeat_missing}

pub repeat_missing-packs :
    (is : List (Text × ℕ)) → (b : Bytes) × (pack_items 2 response_doc (repeat_missing is) ≡ some b)
unfolding response_doc doc word text pair struct pack_text
repeat_missing-packs [] = ([], refl)
repeat_missing-packs (i ∷ is) =
    let (b, e) = repeat_missing-packs is in
    (_, ap (λ o. and_then (response_doc.pack missing) (λ x. and_then o (λ xs. some (x ++ xs)))) e)

repeat_missing-fits : (is : List (Text × ℕ)) → fits_items 2 response_doc (repeat_missing is) ≡ true
unfolding response_doc doc word text pair struct
repeat_missing-fits [] = refl
repeat_missing-fits (i ∷ is) = repeat_missing-fits is

pub length-repeat_missing :
    (items : List ReadItem)
    → length (repeat_missing (map (λ (i : ReadItem). (i.item_name, i.my_doc_version)) items))
      ≡ length items
length-repeat_missing [] = refl
length-repeat_missing (i ∷ is) = ap suc (length-repeat_missing is)

-- A response that can be written, and read again.
abbrev pub Ready : DocResponse → Type 0
Ready r = (b : Bytes) × (pack_response r ≡ some b) × (fits_response r ≡ true)

abbrev pub Short : Text → Type 0
Short t = length t < 256

name_text-packs : (t : Text) → Short t → (b : Bytes) × (short_text.pack t ≡ some b)
unfolding text pack_text
name_text-packs t h =
    let e = lt→ltb (length t) (bound 1) h in (le_bytes 1 (length t) ++ t, rw e refl)

pub read_resp-Ready :
    (items : List ReadItem)
    → length items < 65536
    → Ready
        (read_resp (repeat_missing (map (λ (i : ReadItem). (i.item_name, i.my_doc_version)) items)))
unfolding pack_response fits_response read_response list
read_resp-Ready items h =
    let is = map (λ (i : ReadItem). (i.item_name, i.my_doc_version)) items in
    let (b, e) = repeat_missing-packs is in
    let l : ltb (length (repeat_missing is)) 65536 ≡ true =
      lt→ltb _ _ (omega (arith, length-repeat_missing items)) in
    (1 ∷ (le_bytes 2 (length (repeat_missing is)) ++ b), rw (l, e) refl, repeat_missing-fits is)

pub items-lt :
    (r : ReadRequest) (b : Bytes) → pack_request (read r) ≡ some b → length r.items < 65536
unfolding pack_request read_request pair struct list
items-lt r b e =
    let (x, ex, ex') = and_then-eq_some (read_request.pack r) _ e in
    let (y, ey, ey') = and_then-eq_some ((text 2 true).pack r.account) _ ex in
    let (z, ez, ez') =
      and_then-eq_some ((pair (text 2 true) (list 2 read_item)).pack (r.thing, r.items)) _ ey' in
    let (u, eu, eu') = and_then-eq_some ((text 2 true).pack r.thing) _ ez in
    let (v, ev, ev') = and_then-eq_some (pack_list 2 read_item r.items) _ eu' in
    pack_list-lt 2 read_item r.items v ev

pub repeat_missing-All : (is : List (Text × ℕ)) → All (λ d. d ≡ missing) (repeat_missing is)
repeat_missing-All [] = tt
repeat_missing-All (i ∷ is) = (refl, repeat_missing-All is)

pub user_resp-Ready : (t : Text) → Short t → Ready (user_resp t)
unfolding pack_response fits_response text
user_resp-Ready t h = let (b, e) = name_text-packs t h in (4 ∷ b, ap (tagged 4) e, refl)

pub thing_resp-Ready : (t : Text) → Short t → Ready (thing_resp t)
unfolding pack_response fits_response text
thing_resp-Ready t h = let (b, e) = name_text-packs t h in (5 ∷ b, ap (tagged 5) e, refl)

pub write_resp-Ready : Ready (write_resp (record { status = write_accepted; latest_version = 0 }))
unfolding pack_response fits_response write_response word pair struct
write_resp-Ready = (_, refl, refl)

pub delete_resp-Ready : Ready delete_resp
unfolding pack_response fits_response
delete_resp-Ready = (_, refl, refl)

pub err-Ready : Ready (err error_connecting)
unfolding pack_response fits_response
err-Ready = (_, refl, refl)

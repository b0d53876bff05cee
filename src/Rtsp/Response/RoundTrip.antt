-- ===== src/Rtsp/Response/RoundTrip.antt =====
-- sdk/rtsp.go: a response that has been printed is parsed back.
use serviceradar_sdk_go.Base.{
  ℕ, ◌^◌, ◌<◌, true, false, List, [], ◌∷◌, ◌++◌, ◌≡◌, refl, ap, ◌∙◌, some, ◌==◌, null, length,
  take-append, get_elem?, ltb, All, append_assoc, append-nil, length-append, arith, map, ok,
}
use serviceradar_sdk_go.Strings.{
  Bytes, str, pos, itoa, all-itoa, atoi-itoa, has_prefix, has_prefix-append, split, split_from,
  join, IsFree, IsFree-append, IsFree-apart, cut-IsFree, split-IsFree, split-last,
}
use serviceradar_sdk_go.Maps.{Dict}
use serviceradar_sdk_go.Rtsp.Response.{crlf, cut_body, of_lines, parse_rtsp_response}
use serviceradar_sdk_go.Rtsp.Response.Print.{
  status_line, header_text, length_header, with_length, print_response, OneLine, IsHeader,
  insert_all, digits-apart, length_header-IsHeader, read_headers-with_length,
}

abbrev IsHeaderLine : Bytes → Type 0
IsHeaderLine l = OneLine l × (null l ≡ false)

OneLine-append : (s t : Bytes) → OneLine s → OneLine t → OneLine (s ++ t)
OneLine-append [] t f g = g
OneLine-append (c ∷ s) t (p, f) g = (p, OneLine-append s t f g)

header_text-IsHeaderLine :
    (entry : Bytes × Bytes) → IsHeader entry → IsHeaderLine (header_text entry)
header_text-IsHeaderLine ([], value) h = absurd (given h.key_given)
  where
    given : true ≡ false → ⊥
    given e = cc
header_text-IsHeaderLine (c ∷ key, value) h =
    (OneLine-append (c ∷ key) (str ": " ++ value) h.key_line (refl, (refl, h.value_line)), refl)

header_lines :
    (headers : Dict Bytes) (body : Bytes)
    → All IsHeader headers
    → All IsHeaderLine (map header_text (with_length headers body))
header_lines [] body h =
    (header_text-IsHeaderLine (length_header body) (length_header-IsHeader body), tt)
header_lines (entry ∷ headers) body (i, h) =
    (header_text-IsHeaderLine entry i, header_lines headers body h)

-- No empty line begins at a line.
starts :
    (l : Bytes) (ls : List Bytes) (t : Bytes)
    → IsHeaderLine l
    → has_prefix (join (l ∷ ls) crlf ++ t) crlf ≡ false
unfolding has_prefix join
starts [] ls t (o, g) = absurd cc
starts (c ∷ l) [] t ((p, o), g) = rw p refl
starts (c ∷ l) (v ∷ ls) t ((p, o), g) = rw p refl

lines-IsFree :
    (l : Bytes) (ls : List Bytes) (t : Bytes)
    → OneLine l
    → All IsHeaderLine ls
    → IsFree (crlf ++ crlf) (join (l ∷ ls) crlf) t
unfolding join has_prefix
lines-IsFree l [] t o h = IsFree-apart 13 (10 ∷ crlf) l t o
lines-IsFree l (v ∷ ls) t o (i, h) =
    IsFree-append (crlf ++ crlf) (l ++ crlf) (join (v ∷ ls) crlf) t
      (IsFree-append (crlf ++ crlf) l crlf (join (v ∷ ls) crlf ++ t)
        (IsFree-apart 13 (10 ∷ crlf) l (crlf ++ (join (v ∷ ls) crlf ++ t)) o)
        (starts v ls t i, (refl, tt)))
      (lines-IsFree v ls t i.0 h)

split-lines :
    (l : Bytes) (ls : List Bytes)
    → OneLine l
    → All IsHeaderLine ls
    → split_from 0 (join (l ∷ ls) crlf) crlf ≡ l ∷ ls
unfolding join
split-lines l [] o h = split-last crlf l (IsFree-apart 13 (10 ∷ []) l [] o)
split-lines l (v ∷ ls) o (i, h) =
    let rest = join (v ∷ ls) crlf in
    rw
      (
        append_assoc l crlf rest,
        split-IsFree 13 (10 ∷ []) l rest (IsFree-apart 13 (10 ∷ []) l (crlf ++ rest) o),
        split-lines v ls i.0 h,
      )
      refl

status-split :
    (code : ℕ) (reason : Bytes)
    → get_elem? (split (status_line code reason) (str " ")) 1 ≡ some (itoa code)
unfolding split
status-split code reason =
    let protocol : Bytes = str "RTSP/1.0" in
    let rest = itoa code ++ (str " " ++ reason) in
    let apart : All (λ c. (c == 32) ≡ false) protocol =
      (refl, (refl, (refl, (refl, (refl, (refl, (refl, (refl, tt)))))))) in
    let digits = digits-apart 32 (itoa code) refl (all-itoa code) in
    let one =
      split-IsFree 32 [] protocol rest (IsFree-apart 32 [] protocol (str " " ++ rest) apart) in
    let two =
      split-IsFree 32 [] (itoa code) reason
        (IsFree-apart 32 [] (itoa code) (str " " ++ reason) digits) in
    ap (λ ws. get_elem? ws 1) (one ∙ ap (λ ws. protocol ∷ ws) two)

cut_body_lem :
    (body more : Bytes)
    → ltb 0 (length body) ≡ true
    → cut_body (pos (length body)) (body ++ more) ≡ body
cut_body_lem body [] h =
    let e : ltb (length body) (length body) ≡ false = ground arith in
    rw (append-nil body, h, e) refl
cut_body_lem body (c ∷ more) h =
    let total = length-append body (c ∷ more) in
    let e : ltb (length body) (length (body ++ (c ∷ more))) ≡ true = ground (arith, total) in
    rw (h, e, take-append body (c ∷ more)) refl

status_line-OneLine :
    (code : ℕ) (reason : Bytes) → OneLine reason → OneLine (status_line code reason)
status_line-OneLine code reason o =
    OneLine-append (str "RTSP/1.0 ") (itoa code ++ (str " " ++ reason))
      (refl, (refl, (refl, (refl, (refl, (refl, (refl, (refl, (refl, tt)))))))))
      (OneLine-append (itoa code) (str " " ++ reason)
        (digits-apart 13 (itoa code) refl (all-itoa code)) (refl, o))

of_lines-printed :
    (code : ℕ) (reason : Bytes) (headers : Dict Bytes) (body more : Bytes)
    → code < 2 ^ 63
    → length body < 2 ^ 63
    → ltb 0 (length body) ≡ true
    → All IsHeader headers
    → of_lines (status_line code reason ∷ map header_text (with_length headers body)) (body ++ more)
      ≡ ok (record {
        status_code = pos code;
        status_line = status_line code reason;
        headers = insert_all (with_length headers body) [];
        body = body;
        content_length = pos (length body);
      })
of_lines-printed code reason headers body more c l g h =
    let p : has_prefix (status_line code reason) (str "RTSP/1.0 ") ≡ true =
      has_prefix-append (str "RTSP/1.0 ") (itoa code ++ (str " " ++ reason)) in
    rw
      (
        p,
        read_headers-with_length headers body [] (pos 0) h l,
        status-split code reason,
        atoi-itoa code c,
        cut_body_lem body more g,
      )
      refl

-- A printed response is read back with its status code, its status line, the map of its headers and
-- its body, whatever bytes follow it: for a code and a body length of an int, a body that is not
-- empty, a reason and headers without line breaks, and headers whose names hold no colon and whose
-- names and values are as they are read, trimmed and in lower case.
pub parse-print_response :
    (code : ℕ) (reason : Bytes) (headers : Dict Bytes) (body more : Bytes)
    → code < 2 ^ 63
    → length body < 2 ^ 63
    → ltb 0 (length body) ≡ true
    → OneLine reason
    → All IsHeader headers
    → parse_rtsp_response (print_response code reason headers body ++ more)
      ≡ ok (record {
        status_code = pos code;
        status_line = status_line code reason;
        headers = insert_all (with_length headers body) [];
        body = body;
        content_length = pos (length body);
      })
unfolding parse_rtsp_response split
parse-print_response code reason headers body more c l g o h =
    let first = status_line code reason in
    let rest = map header_text (with_length headers body) in
    let head = join (first ∷ rest) crlf in
    let o' = status_line-OneLine code reason o in
    let hs = header_lines headers body h in
    let whole : print_response code reason headers body ++ more
        ≡ head ++ ((crlf ++ crlf) ++ (body ++ more)) =
      append_assoc head ((crlf ++ crlf) ++ body) more in
    let free = lines-IsFree first rest ((crlf ++ crlf) ++ (body ++ more)) o' hs in
    let lines : split head crlf ≡ first ∷ rest = split-lines first rest o' hs in
    rw (whole, parse_rtsp_response, cut-IsFree 13 (10 ∷ crlf) head (body ++ more) free, lines)
      (of_lines-printed code reason headers body more c l g h)

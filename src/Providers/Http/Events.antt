-- ===== src/Providers/Http/Events.antt =====
-- What `_sse_payloads` of src/vortex_ai_gateway/providers/http.py reads of an event stream.
use vortex_ai_gateway.Base.{
  ◌≡◌, refl, Text, codes, false, List, [], ◌∷◌, ◌++◌, partition, lstrip, text_eq, contains_code,
  partition-append, arith,
}
use vortex_ai_gateway.Providers.Http.{sse_payloads}

-- The lines of a stream as a vendor sends it: a payload; another field (`event`, `id` or `retry`) with its
-- value; a comment, which may keep the connection alive; and the empty line after an event.
pub data Sent : Type 0 where
  data_line : Text → Sent
  field_line : Text → Text → Sent
  comment : Text → Sent
  separator : Sent

unfoldable pub line_of : Sent → Text
line_of (data_line payload) = codes "data: " ++ payload
line_of (field_line name value) = name ++ b':' ∷ value
line_of (comment t) = b':' ∷ t
line_of separator = []

unfoldable pub lines_of : List Sent → List Text
unfolding line_of
lines_of [] = []
lines_of (line ∷ later) = line_of line ∷ lines_of later

unfoldable pub payloads_of : List Sent → List Text
payloads_of [] = []
payloads_of (data_line payload ∷ later) = payload ∷ payloads_of later
payloads_of (field_line name value ∷ later) = payloads_of later
payloads_of (comment t ∷ later) = payloads_of later
payloads_of (separator ∷ later) = payloads_of later

-- No payload starts with white space, and another field's name is not `data` and has no colon.
unfoldable pub AreFlush : List Sent → Type 0
AreFlush [] = Unit
AreFlush (data_line payload ∷ later) = (lstrip payload ≡ payload) × AreFlush later
AreFlush (field_line name value ∷ later) =
    (contains_code b':' name ≡ false) × (text_eq name (codes "data") ≡ false) × AreFlush later
AreFlush (comment t ∷ later) = AreFlush later
AreFlush (separator ∷ later) = AreFlush later

-- Of a stream in which no payload starts with white space, exactly the payloads are read, in order,
-- whatever other fields, comments and separators stand between them; the name of another field is
-- not `data` and has no colon.
pub sse_payloads-lines_of :
    (sent : List Sent) → AreFlush sent → sse_payloads (lines_of sent) ≡ payloads_of sent
unfolding sse_payloads lines_of line_of payloads_of AreFlush partition lstrip
sse_payloads-lines_of [] flush = refl
sse_payloads-lines_of (data_line payload ∷ later) (flush, rest) =
    ground (arith, flush, sse_payloads-lines_of later rest)
sse_payloads-lines_of (field_line name value ∷ later) (whole, other, rest) =
    rw (partition-append b':' name value whole, other) (sse_payloads-lines_of later rest)
sse_payloads-lines_of (comment t ∷ later) flush = sse_payloads-lines_of later flush
sse_payloads-lines_of (separator ∷ later) flush = sse_payloads-lines_of later flush

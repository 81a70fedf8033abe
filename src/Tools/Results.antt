-- ===== src/Tools/Results.antt =====
-- What a call is limited to, and what a report of it comes to: inv_compute_limits, fail_wrap,
-- tool_is_volatile, finalize_timeout, and clm_tool_complete_buf, clm_tool_complete_image,
-- clm_tool_complete_image_base64 and clm_tool_fail up to their call of inv_finalize, with the part of
-- inv_finalize that makes the output.
use clm.Base.{
  ℕ, ◌*◌, ◌/◌, Bytes, Bool, true, false, Option, none, some, List, [], ◌∷◌, ◌++◌, codes, length,
  take, if◌then◌else◌, leb, ltb, ◌==◌,
}
use clm.History.{Attachment}
use clm.Image.Base64.{base64_decode}
use clm.Image.Sniff.{image_sniff, image_type, found, Sniffed}
use clm.Output.{Output, whole, cut, outside, cut_output}
use clm.Output.Binary.{find_binary_offset}
use clm.TextClean.{clean_text}
use clm.Tools.{
  Tool, Invocation, Ext, Report, complete_buf, complete_image, complete_image_base64, fail, Result,
  ok, failed, timedout,
}

abbrev output_cap_default : ℕ
output_cap_default = 16384

abbrev pub output_cap_max : ℕ
output_cap_max = 61440

abbrev pub timeout_max_ms : ℕ
timeout_max_ms = 600000

abbrev image_max_bytes : ℕ
image_max_bytes = 5242880

-- The number under a key of the arguments, where the tool allows it and it is positive.
abbrev pub overridden : Bool → Option ℕ → ℕ → ℕ
overridden false x dflt = dflt
overridden true none dflt = dflt
overridden true (some x) dflt = if leb 1 x then x else dflt

abbrev pub capped : ℕ → ℕ → ℕ
capped most x = if ltb most x then most else x

abbrev pub own_cap : Tool → ℕ
own_cap t = if leb 1 t.output_cap then t.output_cap else output_cap_default

-- `inv_compute_limits`: the two numbers that it stores.
unfoldable pub limits : Ext → Option Tool → Bytes → ℕ × ℕ
limits e none args = (capped output_cap_max output_cap_default, capped timeout_max_ms 0)
limits e (some t) args = (
  capped output_cap_max
      (overridden t.output_cap_overridable (e.arg_number args (codes "output_cap")) (own_cap t)),
  capped timeout_max_ms
      (overridden t.timeout_overridable (e.arg_number args (codes "timeout_ms")) t.timeout_ms),
)

unfoldable pub inv_compute_limits : Ext → Option Tool → Invocation → Invocation
unfolding limits
inv_compute_limits e t v = record v {
  output_cap = (limits e t v.args).0;
  timeout_ms = (limits e t v.args).1;
}

abbrev or_empty : Option Bytes → Bytes
or_empty none = []
or_empty (some s) = s

abbrev fail_wrap : Option Bytes → Bytes
fail_wrap msg = codes "[tool failed: " ++ or_empty msg ++ codes "]"

-- `tool_is_volatile`; no list is an empty one.
pub tool_is_volatile : Ext → List Bytes → Bytes → Bool
tool_is_volatile e [] name = false
tool_is_volatile e (pat ∷ l) name =
    let further = tool_is_volatile e l name in if e.fnmatch pat name then true else further

-- `finalize_timeout`.
abbrev pub timeout_result : Ext → Invocation → Result
timeout_result e v = record {
  content = codes "[tool failed: timed out after " ++ e.decimal v.timeout_ms ++ codes " ms]";
  outcome = timedout;
  att = none;
}

-- Once the timer has fired, whatever the tool reports is the timeout.
abbrev unless_late : Ext → Invocation → Result → Result
unless_late e v r = if v.timed_out then timeout_result e v else r

abbrev ok_result : Bytes → Option Attachment → Result
ok_result content att = record { content = content; outcome = ok; att = att }

abbrev fail_result : Ext → Invocation → Option Bytes → Result
fail_result e v msg =
    unless_late e v (record { content = fail_wrap msg; outcome = failed; att = none })

-- The text and the image of `clm_tool_complete_image`, which not every model takes.
abbrev pub shown : Bool → Bytes → Bytes → Bytes → Result
shown no_vision text media_type image =
    if no_vision
    then ok_result (text ++ codes "\n[image omitted: the model does not take images]") none
    else ok_result text (some (record { media_type = media_type; image = image }))

abbrev image_result : Ext → Bool → Invocation → Bytes → Bytes → Bytes → Result
image_result e no_vision v text media_type image =
    if length image == 0
    then fail_result e v (some (codes "no image"))
    else unless_late e v (shown no_vision text media_type image)

abbrev new_line : Bytes → Bytes
new_line [] = []
new_line (b ∷ s) = codes "\n"

abbrev omitted : Ext → Invocation → Bytes → Bytes → Result
omitted e v text why =
    unless_late e v
      (ok_result (text ++ new_line text ++ codes "[image omitted: " ++ why ++ codes "]") none)

abbrev sniffed_result : Ext → Bool → Invocation → Bytes → Bytes → Sniffed → Result
sniffed_result e no_vision v text image (found w h) =
    image_result e no_vision v text (image_type image) image
sniffed_result e no_vision v text image _ =
    omitted e v text (codes "not a PNG, JPEG, GIF or WebP image")

abbrev decoded_result : Ext → Bool → Invocation → Bytes → Option Bytes → Result
decoded_result e no_vision v text none = omitted e v text (codes "bad base64")
decoded_result e no_vision v text (some image) =
    sniffed_result e no_vision v text image (image_sniff (some image))

unfoldable pub base64_result : Ext → Bool → Invocation → Bytes → Bytes → Result
base64_result e no_vision v text b64 =
    if length b64 == 0
    then omitted e v text (codes "no data")
    else if ltb image_max_bytes (length b64 / 4 * 3)
    then omitted e v text (codes "too large")
    else decoded_result e no_vision v text (base64_decode b64)

-- A report of an invocation that has not completed.
unfoldable pub reported : Ext → Bool → Invocation → Report → Result
unfolding base64_result
reported e no_vision v (complete_buf content) = unless_late e v (ok_result content none)
reported e no_vision v (complete_image text none image) = fail_result e v (some (codes "no image"))
reported e no_vision v (complete_image text (some mt) none) =
    fail_result e v (some (codes "no image"))
reported e no_vision v (complete_image text (some mt) (some image)) =
    image_result e no_vision v (or_empty text) mt image
reported e no_vision v (complete_image_base64 text b64) =
    base64_result e no_vision v (or_empty text) (or_empty b64)
reported e no_vision v (fail msg) = fail_result e v msg

-- Binary output gives way to a note.
abbrev binary_note : Ext → ℕ → ℕ → Bytes
binary_note e off len =
    codes "[tool output contained binary data at byte offset "
    ++ e.decimal off
    ++ codes " of "
    ++ e.decimal len
    ++ codes "; not displayed]"

abbrev effective : Ext → Bytes → Bytes
effective e content =
    if ltb (find_binary_offset content) (length content)
    then binary_note e (find_binary_offset content) (length content)
    else content

abbrev put_out : Ext → Bytes → Output → Bytes
put_out e content (whole d) = d
put_out e content (cut d) = d
put_out e content outside = e.overread content

-- What the model and the embedder see of the content.
pub output_of : Ext → ℕ → Bytes → Bytes
output_of e cap content =
    clean_text
      (some (put_out e (effective e content) (cut_output e.marker cap (effective e content))))

-- `snprintf` into a buffer of `size` bytes.
abbrev pub printed : ℕ → Bytes → Bytes
printed room s = take room s

abbrev pub superseded_stub : Bytes → Bytes
superseded_stub name = printed 127 (codes "[superseded by newer " ++ name ++ codes "]")

-- ===== src/Linked/Write.antt =====
-- Writing the file again, v1.0.0/inifile.c: `updateIniFile`, with its loops around `write`.
use Prim.Native.Nat.{◌/◌, ◌%◌}
pub mod Laws
pub mod Returns
use ini.Api.{file_name}
use ini.Base.{
  Bool, Bytes, List, Option, [], bytes_eq, drop, false, if◌then◌else◌, leb, length, ltb, none, some,
  take, true, ℕ, ◌++◌, ◌==◌, ◌∷◌,
}
use ini.Linked.{
  IniFile, IniFileNode, KeyValue, LineCode, Outcome, done, empty_list, error_type,
  list_ini_file_node_is_empty, max_filename_len, open_file_error, undefined, write_error, ◌>>=◌,
}
use ini.Linked.Chars.{array_str, key_str, section_str, value_str}
use ini.Linked.Read.{Files}
use ini.Memory.{nodes, ◌>>◌}
use ini.Text.{c_str, comma_sign, equality_sign, left_bracket, newline_sign, right_bracket}

-- What a call of `write` does: it is interrupted, it fails, or it takes so many bytes.
pub data Written : Type 0 where
  interrupted failed : Written
  part : ℕ → Written

-- The loop over what is left of the buffer. A part of 0 bytes ends it too; when no more is said of
-- the calls, `write` takes the buffer. It gives the bytes in the file, the calls to come, and
-- whether it did not return WRITEERROR.
unfoldable pub write_loop : List Written → Bytes → Bytes × List Written × Bool
write_loop [] b = (b, [], true)
write_loop (interrupted ∷ ws) b = write_loop ws b
write_loop (failed ∷ ws) b = ([], ws, false)
write_loop (part n ∷ ws) b =
    let (out, ws', good) = write_loop ws (drop n b) in
    if n == 0
    then ([], ws, true)
    else if leb (length b) n
    then (b, ws, true)
    else (take n b ++ out, ws', good)

-- The buffer of a section: `isNote` is 0 or 1.
unfoldable pub node_buffer : IniFileNode → Bytes
unfolding c_str
node_buffer n =
    if n.is_note
    then newline_sign ∷ comma_sign ∷ (section_str n ++ (newline_sign ∷ []))
    else newline_sign ∷ left_bracket ∷ (section_str n ++ (right_bracket ∷ newline_sign ∷ []))

unfoldable pub key_value_buffer : KeyValue → Bytes
unfolding c_str array_str
key_value_buffer k =
    if k.is_note
    then comma_sign ∷ (key_str k ++ (newline_sign ∷ []))
    else key_str k ++ (equality_sign ∷ (value_str k ++ (newline_sign ∷ [])))

-- `char buffer[MAX_FILLINE_LEN+4]` has room for 131 bytes and the NUL.
abbrev pub buffer_room : ℕ
buffer_room = 131

-- The bytes that one buffer adds to the file, then what `k` writes unless WRITEERROR returns.
abbrev pub write_buffer :
    List Written
    → Bytes
    → (List Written → Outcome (Bytes × List Written × Bool))
    → Outcome (Bytes × List Written × Bool)
write_buffer ws b k =
    if ltb buffer_room (length b)
    then undefined
    else let (out, ws', good) = write_loop ws b in
      if good then (do r ← k ws'; done (out ++ r.0, r.1, r.2)) else done (out, ws', false)

unfoldable pub write_keys : List KeyValue → List Written → Outcome (Bytes × List Written × Bool)
unfolding write_loop key_value_buffer
write_keys [] ws = done ([], ws, true)
write_keys (k ∷ ks) ws = write_buffer ws (key_value_buffer k) (λ ws'. write_keys ks ws')

abbrev pub keys_of : Option (List KeyValue) → List KeyValue
keys_of none = []
keys_of (some ks) = ks

-- `k` where nothing failed.
abbrev pub or_failed :
    Bytes × List Written × Bool
    → (List Written → Outcome (Bytes × List Written × Bool))
    → Outcome (Bytes × List Written × Bool)
or_failed (out, ws, good) k =
    if good then (do r ← k ws; done (out ++ r.0, r.1, r.2)) else done (out, ws, false)

unfoldable pub write_nodes : List IniFileNode → List Written → Outcome (Bytes × List Written × Bool)
unfolding write_loop node_buffer write_keys
write_nodes [] ws = done ([], ws, true)
write_nodes (n ∷ ns) ws =
    write_buffer ws (node_buffer n)
      (λ w. do r ← write_keys (keys_of n.key_list) w; or_failed r (λ w'. write_nodes ns w'))

-- The bytes of `int len`, which stands behind `fileName`.
abbrev pub int_bytes : ℕ → Bytes
int_bytes n = n % 256 ∷ n / 256 % 256 ∷ n / 65536 % 256 ∷ n / 16777216 % 256 ∷ []

-- The name that `open` is given: with all 64 bytes in use it goes on in `len`.
unfoldable pub open_name : IniFile → Bytes
unfolding c_str
open_name f =
    if leb max_filename_len (length f.file_name)
    then c_str (f.file_name ++ int_bytes f.len)
    else c_str f.file_name

abbrev pub set_name : Files → Bytes → Bytes → Files
set_name files name text other = if bytes_eq name other then some text else files other

-- What was written is in the file; the code returned is 0 or WRITEERROR.
abbrev pub file_written :
    IniFile → Files → Bytes × List Written × Bool → Files × List Written × LineCode
file_written f files r =
    (set_name files (open_name f) r.0, r.1, if r.2 then error_type else write_error)

-- `open` with O_TRUNC empties a file that is there.
abbrev pub write_file :
    IniFile → Files → List Written → Option Bytes → Outcome (Files × List Written × LineCode)
write_file f files ws none = done (files, ws, open_file_error)
write_file f files ws (some old) = do r ← write_nodes f.nodes ws; done (file_written f files r)

unfoldable pub update_ini_file :
    IniFile → Files → List Written → Outcome (Files × List Written × LineCode)
unfolding write_nodes open_name
update_ini_file f files ws =
    if list_ini_file_node_is_empty f
    then if f.dangling then undefined else write_file f files ws (files (open_name f))
    else done (files, ws, empty_list)

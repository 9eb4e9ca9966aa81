-- ===== src/Hgdelta/Loaded.antt =====
-- HelenRuntime/HgdeltaFile.cpp: what `HgdeltaFile::Load` promises of a container on disk.
use helen_gamehook.Common.Results.{ok, bind-eq-ok, reject-eq-ok, reject, or_throw, or_throw-eq-ok}
use helen_gamehook.Common.Words.{Bytes, AreBytes, u32_mod}
use helen_gamehook.Common.Words.Bounds.{take-AreBytes}
use helen_gamehook.Common.{
  ◌≤◌, ◌<◌, ◌≡◌, subst, not, length, length-drop, take, drop, ltb, ◌==◌, arith,
}
use helen_gamehook.Files.{FileSystem, YieldsBytes}
use helen_gamehook.Hgdelta.Layout.{IsWellFormed}
use helen_gamehook.Hgdelta.Sound.{load_bytes-IsWellFormed}
use helen_gamehook.Hgdelta.Table.{
  size_unreadable, file_too_large, not_opened, empty_path, not_regular_file,
}
use helen_gamehook.Hgdelta.{
  HgdeltaFile, Header, max_size, max_stream_size, read_all_bytes, read_header, check_header,
  load_chunks, assemble, load_body, load_bytes, load,
}
use helen_gamehook.Paths.{FilePath, path_empty}

read_all_bytes-lt :
    (fs : FileSystem) (path : FilePath) {bytes : Bytes}
    → YieldsBytes fs
    → read_all_bytes fs path ≡ ok bytes
    → AreBytes bytes × (length bytes < u32_mod)
unfolding read_all_bytes
read_all_bytes-lt fs path yields p =
    let (size, _, p1) = bind-eq-ok (or_throw (fs.file_size path) size_unreadable) _ p in
    let (_, small, p2) = bind-eq-ok (reject (ltb max_size size) file_too_large) _ p1 in
    let (_, _, p3) = bind-eq-ok (reject (ltb max_stream_size size) file_too_large) _ p2 in
    let (stream, opened, p4) = bind-eq-ok (or_throw (fs.contents path) not_opened) _ p3 in
    let (whole, same) = reject-eq-ok (not (length (take size stream) == size)) _ p4 in
    (
      subst AreBytes same (
          take-AreBytes size stream
            (yields path stream (or_throw-eq-ok (fs.contents path) not_opened opened))),
      subst (λ (b : Bytes). length b < u32_mod) same (ground (arith, small, whole)),
    )

load_body-payload :
    (bytes : Bytes) (h : Header) {d : HgdeltaFile}
    → load_body bytes h ≡ ok d
    → length d.payload_bytes ≤ length bytes
unfolding load_body assemble
load_body-payload bytes h p =
    let payload = drop h.payload_offset bytes in
    let (_, checked, q) = bind-eq-ok (check_header bytes h) _ p in
    let (r, loop, e) = bind-eq-ok (load_chunks bytes h payload h.chunk_count 0 0) _ q in
    let (_, built) = reject-eq-ok (not (r.1 == h.target_file_size)) _ e in
    subst (λ (x : HgdeltaFile). length x.payload_bytes ≤ length bytes) built
      (omega (arith, length-drop h.payload_offset bytes))

load_bytes-payload :
    (bytes : Bytes) {d : HgdeltaFile}
    → load_bytes bytes ≡ ok d
    → length d.payload_bytes ≤ length bytes
unfolding load_bytes
load_bytes-payload bytes p =
    let (h, r, q) = bind-eq-ok (read_header bytes) _ p in load_body-payload bytes h q

-- Whatever the file system yields for a path, a container that `HgdeltaFile::Load` returns for it is
-- well formed: its chunks tile the target file, each takes its bytes from inside the base file or
-- the payload, and their sizes add up. Its payload has a 32-bit size.
pub load-IsWellFormed :
    (fs : FileSystem) (path : FilePath) {d : HgdeltaFile}
    → YieldsBytes fs
    → load fs path ≡ ok d
    → IsWellFormed d × (length d.payload_bytes < u32_mod)
unfolding load
load-IsWellFormed fs path yields p =
    let (_, _, p1) = bind-eq-ok (reject (path_empty path) empty_path) _ p in
    let (_, _, p2) = bind-eq-ok (reject (not (fs.is_regular_file path)) not_regular_file) _ p1 in
    let (bytes, all, p3) = bind-eq-ok (read_all_bytes fs path) _ p2 in
    let (are, lt) = read_all_bytes-lt fs path yields all in
    (load_bytes-IsWellFormed bytes are p3, omega (arith, lt, load_bytes-payload bytes p3))

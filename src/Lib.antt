-- ===== src/Lib.antt =====
-- The Helen game hook: a runtime that a proxy library loads into a game. It puts the files of packs in
-- the place of the game's, patches code by signature, and offers the patched code live values, commands
-- and settings. This library models the core of HelenRuntime/ over the native numbers and proves what
-- makes each part correct.
--
-- The parts, from the disk upwards:
--  - Paths.antt is `std::filesystem::path` as far as the runtime uses it; Files.antt is the file system
--    and the hash provider, both parameters of the model (records of functions), and
--    HelenRuntime/FileFingerprint.cpp.
--  - Manifest.antt holds the declarations of include/HelenHook/VirtualFile*.h, Manifest/Assets.antt is
--    HelenRuntime/PackAssetResolver.cpp; Manifest/Assets/Contained.antt says what is documented of
--    `weakly_canonical`.
--  - Hgdelta.antt and Hgdelta/Table.antt are HelenRuntime/HgdeltaFile.cpp (`HgdeltaFile::Load`,
--    `ValidateChunkEntry`); Hgdelta/Layout.antt says what a well-formed container is.
--  - Source.antt is HelenRuntime/FullFileVirtualFileSource.cpp, Source/Delta.antt,
--    Source/Delta/Open.antt and Source/Delta/Materialize.antt are
--    HelenRuntime/DeltaVirtualFileSource.cpp; Source/Delta/Target.antt is the target file that a
--    container stands for, Source/Delta/Blocks.antt and Source/Delta/Written.antt say which writes make
--    it.
--  - VirtualFiles.antt, VirtualFiles/Sources.antt and VirtualFiles/Handles.antt are
--    HelenRuntime/VirtualFileService.cpp: registration and lookup, sources, and the calls on handles.
--  - RuntimeValues.antt is HelenRuntime/RuntimeValueStore.cpp over Floats.antt, the machine's
--    floating-point numbers, a parameter with the laws of IEEE 754 that the code relies on.
--  - Json.antt and Json/Parser.antt are HelenRuntime/JsonParser.cpp and JsonValue.cpp, over the C
--    library's doubles (Json/Numbers.antt), a parameter. Config.antt, Config/Json.antt and
--    Config/Load.antt are HelenRuntime/JsonConfigStore.cpp, Dispatcher.antt
--    HelenRuntime/CommandDispatcher.cpp.
--  - Commands.antt and Commands/Runs.antt are HelenRuntime/CommandExecutor.cpp. The graphics service
--    (include/HelenHook/BatmanGraphicsConfigService.h) is an interface, a record of its calls.
--  - Bindings.antt is HelenRuntime/ExternalBindingService.cpp, Bindings/Startup.antt
--    HelenRuntime/BuildRuntimeCoordinator.cpp.
--  - Routes.antt and Routes/Relative.antt are HelenRuntime/FileWriteRouteResolver.cpp,
--    Routes/Transaction.antt is HelenRuntime/FileWriteRoutingTransaction.cpp, and HiddenPaths.antt
--    HelenRuntime/HiddenPathMatcher.cpp.
--  - Pattern.antt is HelenRuntime/Pattern.cpp, Relocator.antt HelenRuntime/HookBlobRelocator.cpp.
--  - Patch.antt and Patch/Operations.antt are HelenRuntime/MemoryPatch.cpp over a record of the calls
--    into Windows; Patch/Laws.antt is what Windows documents of them.
--  - Bootstrap.antt is HelenRuntime/ProxyBootstrapCoordinator.cpp, Bootstrap/System.antt its threads as a
--    step relation.
--  - Common.antt has what they share: tests, lists, integers, maps, results, words. Tests.antt has runs
--    on concrete inputs.
--
-- A function that changes an object takes its state and returns the new one; a function that throws
-- returns a result, with one value for each exception where callers tell them apart. An operation that
-- holds a mutex throughout is one step, and a history is a list of calls. What Windows answers within
-- one call (an event handle, whether a handle closes) is an argument of that call.
--
-- The shipped build is 32-bit: `size_t` and addresses have 32 bits, and a sum or product that the source
-- computes in a word is wrapped in the model. Bytes that are joined by shifts and `|` are summed, as
-- their bits are disjoint.
--
-- Loops are structural recursion, but for six. The read loop of a delta has the number of bytes left
-- as fuel, and copies at least one byte a turn; so has the loop that copies a part of the base file
-- to the cache. `BytePattern::Parse` has one unit more than there are characters, and each turn
-- consumes one. A run of a command has one unit more than there are registered commands, since a
-- command that is already running is refused. The JSON parser has two units for each character, as a
-- value takes one and an array that it opens takes one more on the same text, and two for the
-- document. The regions of a patch have one unit for each byte, and each holds a byte of the range.
--
-- Not modelled: log output, allocation failures, the calls that map a file of the cache or a
-- replacement, the debug view of the slots; of HelenRuntime/ the pack repository and the active
-- packs, the state observers, the write routing service, the module load routing, the hooks and
-- their installation, the graphics and display services, the Windows hook sets, the textures, the
-- debug trace and the layout of the runtime; and everything outside HelenRuntime/.
pub mod Common
pub mod Paths
pub mod Files
pub mod Manifest
pub mod Hgdelta
pub mod Source
pub mod VirtualFiles
pub mod Floats
pub mod RuntimeValues
pub mod Config
pub mod Dispatcher
pub mod Commands
pub mod Bindings
pub mod Pattern
pub mod Relocator
pub mod Tests
pub mod Bootstrap
pub mod HiddenPaths
pub mod Json
pub mod Patch
pub mod Routes

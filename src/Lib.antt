-- ===== src/Lib.antt =====
-- expo-builder-local: the C++ command line client `ebl` in cli-cpp-legacy/src.
--
-- The client drives Docker to build Expo projects. Its own logic is in components that the
-- commands compose, and they are modelled here, each by the file of its name:
--
--   Json        cli-cpp-legacy/src/json.cpp and json.hpp. Json.Value is the class, Json.Access its
--               accessors (contains, at, get, set, size, push_back, asString and the like), Json.Dump
--               the printer (escapeStringTo, dumpNumber, dumpTo), Json.Parser the class Parser.
--               Json.Keys, Json.Access.Laws, Json.Parser.Total and Json.Parser.RoundTrip hold proofs.
--   Base64      cli-cpp-legacy/src/base64.cpp: base64Encode and base64Decode.
--   Url         cli-cpp-legacy/src/http_client_common.cpp: urlEncode.
--   Version     cli-cpp-legacy/src/version_compare.cpp: isVersionNewer.
--   Crypto      cli-cpp-legacy/src/crypto.cpp: aesEncrypt and aesDecrypt. OpenSSL's AES-256-GCM is a
--               parameter: for aesDecrypt each of its calls, for aesEncrypt their result.
--   Config      cli-cpp-legacy/src/config_store.cpp: loadConfig, saveConfig and the machine key, in
--               Config.Store, as steps on the files of the configuration directory and on the random
--               source. It uses Json, Base64 and Crypto.
--   UpdateCheck cli-cpp-legacy/src/update_check.cpp: checkForNewerVersion with its cache file. It uses
--               Json and Version.
--   Menu        cli-cpp-legacy/src/tui_menu.cpp and tui_input.cpp: selectFromMenu and readKey.
--   Tar         cli-cpp-legacy/src/tar_writer.cpp: createTarFromDirectory on the files of a walk.
--   WinPath     cli-cpp-legacy/src/winpath.cpp: toDockerBindPath.
--   Docker      cli-cpp-legacy/src/docker_client.cpp: the class DockerClient. Docker.Http has the HTTP client
--               as a parameter, Docker.Bodies the JSON that is sent, Docker.Replies what is read from
--               responses, Docker.Client the methods that send requests, Docker.Streams buildImage,
--               pullImage and attachAndStream, Docker.Render the texts of a pull's progress.
--               Docker.Services states what the Docker Engine API documents of named containers and
--               networks, and Docker.Single is a daemon for runs. It uses Json, Url, Tar and WinPath.
--   DockerStats cli-cpp-legacy/src/docker_stats.cpp: parseDockerStats.
--   PipeHttp    cli-cpp-legacy/src/http_client_win.cpp: buildRequest and readResponseHead, and in PipeHttp.Body
--               takeBytes, readLine, deliverBody and the two methods of HttpClient. PipeHttp.Numbers is
--               std::stoull.
--   PullProgress  cli-cpp-legacy/src/pull_progress.cpp: PullProgressRenderer.
--   Lines       the line buffer that buildImage, pullImage and the log of a build share.
--   Progress    cli-cpp-legacy/src/build_progress_tracker.cpp: BuildProgressTracker, with its regular
--               expressions written out in Progress.Patterns.
--   Detect      cli-cpp-legacy/src/detect.cpp: detectExpoProject on the texts of a directory's files.
--   Build       cli-cpp-legacy/src/commands/build.cpp: the command `ebl build`. Build.Options is parseArgs,
--               Build.Console the prompts of cli-cpp-legacy/src/prompt.cpp, Build.Wizard runBuildWizard,
--               Build.Resolve the checks and the parameters in front of Docker, Build.Text and Build.Log
--               the handler of the container's output, Build.Run ensureRunnerImage and the requests of a
--               build, Build.Run.Summary its result. It uses Docker, Progress, Detect, Config and Lines.
--   Decimal     the functions of the C and C++ libraries that print and read integers, which the
--               components share.
--   Doubles     the type double and its operations, a parameter.
--   Exception   the exceptions that the code throws, and the result of a call that may throw.
--   Steps       calls that may throw and that change the world outside, which the client and the
--               commands share.
--   Prelude     names of the libraries, lists, Boolean tests and signed integers.
--
-- A std::string is the list of its bytes. A function that appends to an output string returns what it
-- appends; a method that changes an object returns the new object. A call that throws returns the
-- exception; a step on files leaves the files in some state also where it throws. The calls of the
-- operating system that can fail do or do not fail as a Boolean of the model says. Numbers are
-- unbounded, with the bounds of the machine types written out where the code meets them.
--
-- The JSON parser goes over the rest of the text where the code moves an index. Its loops run on fuel,
-- the length of the text and one: every round takes at least a byte. The outcome `stuck` says that the
-- fuel was used up.
--
-- The line buffer erases a line and its delimiter in every round, so that the length of the text and
-- one is fuel enough. Regular expressions, the loop over the arguments and that over a line's escapes go
-- over the text by structural recursion.
--
-- The lines of a chunked body are read on fuel, the bytes that are left and one. `readLine` itself never
-- ends where a line end has not come with the bytes at hand, and `stuck` is that outcome too.
--
-- For the Docker client the HTTP client is a parameter: it answers a request with a response or throws,
-- and a stream with its chunks and then a status or an exception. A handler that throws ends the stream.
-- The threads of a build are written as one order of the requests, with the output of the container, the
-- Ctrl-C of the user, the duration and what reading the metrics of the artifact throws or returns as
-- arguments; what the dashboard and the terminal draw is left out.
--
-- Doubles, too, are a parameter, with the laws of printing and reading that hold of every finite double
-- that is not subnormal. The laws of the other parameters are named in records: AesLaws, HostLaws and
-- Engine.
--
-- Not modelled: system calls, terminals, processes and the libraries libcurl and OpenSSL, which have
-- no source here; of the HTTP client over a named pipe, how the pipe is opened and reads that fail; the
-- reading of an artifact's metrics; the commands other than `build`; the writing of .ebl-token and
-- .gitignore; the drawing of the dashboard.
pub mod Base64
pub mod Build
pub mod Config
pub mod Crypto
pub mod Decimal
pub mod Detect
pub mod Docker
pub mod DockerStats
pub mod Doubles
pub mod Exception
pub mod Json
pub mod Lines
pub mod Menu
pub mod PipeHttp
pub mod Prelude
pub mod Progress
pub mod PullProgress
pub mod Steps
pub mod Tar
pub mod UpdateCheck
pub mod Url
pub mod Version
pub mod WinPath

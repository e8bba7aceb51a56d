-- ===== src/Docker/Streams/Tests.antt =====
-- Runs of the streams of the Docker client, and their theorems at work.
use expo_builder_local.Prelude.{Bytes, List, [], ◌∷◌, ◌++◌, true, false, codes, ◌≡◌, ◌≢◌, refl}
use expo_builder_local.Exception.{ok, stuck}
use expo_builder_local.Decimal.{read_int}
use expo_builder_local.Config.{is_empty}
use expo_builder_local.Lines.{cut, drain, drain_cut, feed, feed_all}
use expo_builder_local.Json.Access.{as_string, get, contains}
use expo_builder_local.Json.Parser.{parse}
use expo_builder_local.Tar.{Directory, create_tar, entries_bytes}
use expo_builder_local.Docker.Http.{plain}
use expo_builder_local.Docker.Single.{State, single, stream}
use expo_builder_local.Docker.Streams.{
  is_newline, PullEvent, started, split_tag, build_handler, pull_handler, build_request,
  build_image, pull_image, pull_path, stream_lines, finish, run_stream, on_build_line,
  on_build_event, on_pull_line, on_pull_event, member_text, build_status, pull_progress,
  detail_number,
}
use expo_builder_local.Docker.Streams.Laws.{streams-ne-stuck, split_tag-join}
use expo_builder_local.Docker.Streams.Told.{
  NoLastError, TellsBuildError, TellsPullError, lines_of, build_image_ok, pull_image_ok,
}

abbrev state : State
state = record { present = false; networks = false }

abbrev empty : Directory
empty = record { is_dir = true; root = codes "/r"; entries = [] }

abbrev logged : List Bytes
logged = codes "Step 1\n" ∷ codes "Pulling\n" ∷ []

build_run : build_image single empty (codes "r:1") false state ≡ (ok logged, state)
unfolding build_image create_tar entries_bytes run_stream stream_lines finish build_handler feed_all
    feed drain drain_cut cut is_newline on_build_line on_build_event member_text build_status parse
    read_int get contains as_string is_empty
build_run = refl

build_image_ok_example :
    (tar : Bytes) × (create_tar empty ≡ ok tar)
    × ((single.open_stream (build_request single (codes "r:1") false tar) state).0.ending ≡ ok 200)
    × NoLastError
        (TellsBuildError single)
        (lines_of single (build_request single (codes "r:1") false tar) state)
build_image_ok_example =
    build_image_ok single empty (codes "r:1") false state state logged build_run

abbrev pulled : List PullEvent
pulled = record { id = codes "ab"; status = codes "Pulling"; progress = [] } ∷ []

pull_run : pull_image single (codes "r:1") state ≡ (ok pulled, state)
unfolding pull_image run_stream stream_lines finish pull_handler feed_all feed drain drain_cut cut
    is_newline on_pull_line on_pull_event member_text pull_progress detail_number parse read_int get
    contains as_string is_empty
pull_run = refl

pull_image_ok_example :
    ((single.open_stream (plain (codes "POST") (pull_path single (codes "r:1"))) state).0.ending
      ≡ ok 200)
    × NoLastError
        (TellsPullError single)
        (lines_of single (plain (codes "POST") (pull_path single (codes "r:1"))) state)
pull_image_ok_example = pull_image_ok single (codes "r:1") state state pulled pull_run

streams-ne-stuck_example :
    (feed_all is_newline (build_handler single) stream ([], started) ≢ stuck)
    × (feed_all is_newline (pull_handler single) stream ([], started) ≢ stuck)
streams-ne-stuck_example = streams-ne-stuck single stream

split_tag-join_example :
    split_tag (codes "host:5000/r" ++ b':' ∷ codes "v1") ≡ (codes "host:5000/r", codes "v1")
split_tag-join_example = split_tag-join (codes "host:5000/r") (codes "v1") (refl, (refl, tt))

-- ===== src/Tests/Calls.antt =====
-- Answers of the control plane.
use plakar_edge.Base.{◌≡◌, refl, ◌↔◌, equal, true, [], ◌∷◌, none, some, Bytes, text}
use plakar_edge.Base.Int.{pos}
use plakar_edge.Client.Calls.{
  error_status, do_status-refused_with, is_rejected, IsRejection, poll_rejected_iff, polled,
  HasNoContent, poll_no_work_iff,
}
use plakar_edge.Client.Fetch.Atomic.{Leaves, fetch_package-Leaves}
use plakar_edge.Client.Fetch.{read, Package, Files, Download, package_request, fetch_package}
use plakar_edge.Client.{
  ok, plain, Request, Exchange, answered, Decoded, eof, Client, do_status, poll, zero_item,
}
use plakar_edge.Protocol.{PollRequest, WorkItem}

abbrev a_client : Client
a_client = record { base_url = text "https://api.example.com"; token = text "t" }

-- The token was revoked.
abbrev revoked : Exchange
revoked = answered (record { status = 401; status_line = text "401 Unauthorized"; payload = [] })

abbrev a_poll : PollRequest
a_poll = record {
  protocol_version = 2;
  edge_version = text "v1";
  hostname = text "host";
  system_info = record {
    os = text "linux";
    arch = text "amd64";
    num_cpu = 4;
    go_version = text "go";
    total_memory = 0;
    kernel = [];
    kloset_version = [];
  };
  tags = [];
  slots = pos 1;
}

abbrev no_body : Bytes → Decoded WorkItem
no_body b = eof

do_status-refused_with_example :
    error_status
      (do_status (text "POST") (text "/api/v1/edge/poll") zero_item (some no_body) revoked).1
    ≡ some 401
do_status-refused_with_example =
    do_status-refused_with (text "POST") (text "/api/v1/edge/poll") zero_item (some no_body) revoked

abbrev revoking : Request → Exchange
revoking r = revoked

poll_rejected_iff_example :
    (is_rejected (poll revoking a_client no_body a_poll) ≡ true)
    ↔ IsRejection (polled revoking a_client a_poll)
poll_rejected_iff_example = poll_rejected_iff revoking a_client no_body a_poll

poll_no_work_iff_example :
    (poll revoking a_client no_body a_poll ≡ ok none)
    ↔ HasNoContent (polled revoking a_client a_poll)
poll_no_work_iff_example = poll_no_work_iff revoking a_client no_body a_poll

abbrev a_package : Package
a_package = record {
  name = text "s3";
  version = text "v1.0.0";
  operating_system = text "linux";
  architecture = text "amd64";
}

abbrev some_files : Files
some_files = (text "fs", text "old") ∷ []

-- The move to the place fails, at the very end.
abbrev unmovable : Download
unmovable = record {
  created = ok (text "tmp");
  written = [];
  copied = none;
  closed = none;
  renamed = some (plain (text "permission denied"));
  removed = none;
}

abbrev serving : Request → Exchange
serving r =
    answered (record { status = 200; status_line = text "200 OK"; payload = text "package" })

abbrev as_is : Bytes → Bytes
as_is s = s

fetch_package-Leaves_example :
    Leaves unmovable
      (serving (package_request as_is as_is a_client a_package))
      (text "s3")
      some_files
      (fetch_package as_is as_is serving unmovable a_client a_package (text "s3") some_files)
unfolding read equal
fetch_package-Leaves_example =
    fetch_package-Leaves as_is as_is serving unmovable a_client a_package (text "s3") some_files
      refl

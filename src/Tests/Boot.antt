-- ===== src/Tests/Boot.antt =====
-- The first start of an edge, into an organization, after one failure; and the next.
use plakar_edge.Base.{
  ◌≡◌, refl, ap, arith, zero, suc, inr, true, false, List, [], ◌∷◌, none, some, Bytes, text, equal,
}
use plakar_edge.Base.Int.{pos}
use plakar_edge.Client.Fetch.Atomic.{TakesBack}
use plakar_edge.Client.Fetch.{Files, read}
use plakar_edge.Client.{
  Result, ok, plain, Request, Exchange, failed, answered, Decoded, value, enroll, do_status,
  http_status,
}
use plakar_edge.LogStream.Utf8.{Utf8, nil, cons, one}
use plakar_edge.Protocol.{Uuid, EnrollResponse}
use plakar_edge.Startup.Boot.{Flags, Variables, Machine, enroll_into_organization, boot}
use plakar_edge.Startup.Reboot.{boot-boot}
use plakar_edge.Startup.Retries.{Ends, enroll_loop-Ends, check_state_writable-TakesBack}
use plakar_edge.Startup.{
  State, Disk, check_state_writable, Booted, resumed, enrolled, Round, enroll_loop,
  pool_enrollment_key_or_env, check_enroll_flags,
}
use plakar_edge.Tests.Job.{test_config}

-- A format of the state file: the id's bytes, each a number above 0, and the token behind a 0.
abbrev pack : Bytes → Bytes → Bytes
pack [] token = zero ∷ token
pack (c ∷ id) token = suc c ∷ pack id token

abbrev unpack : Bytes → Bytes × Bytes
unpack [] = ([], [])
unpack (zero ∷ b) = ([], b)
unpack (suc c ∷ b) = let r = unpack b in (c ∷ r.0, r.1)

abbrev encode : State → Bytes
encode s = pack s.edge_id s.token

abbrev decode : Bytes → Result State
decode b = let r = unpack b in ok (record { edge_id = r.0; token = r.1 })

unpack-pack : (id token : Bytes) → unpack (pack id token) ≡ (id, token)
unpack-pack [] token = refl
unpack-pack (c ∷ id) token = ap (λ r. (c ∷ r.0, r.1)) (unpack-pack id token)

decode-encode : (s : State) → decode (encode s) ≡ ok s
decode-encode s =
    ap (λ r. ok (record { edge_id = r.0; token = r.1 })) (unpack-pack s.edge_id s.token)

abbrev a_response : Bytes → Decoded EnrollResponse
a_response b =
    value
      (record { edge_id = 9 ∷ []; token = text "t"; protocol_version = pos 2; supported = true })

abbrev as_is : Bytes → Bytes
as_is s = s

abbrev an_id : Bytes → Result Uuid
an_id s = ok (7 ∷ [])

abbrev a_machine : Machine
a_machine = record {
  hostname = text "host";
  version = text "v1";
  system_info = record {
    os = text "linux";
    arch = text "amd64";
    num_cpu = 4;
    go_version = text "go";
    total_memory = 0;
    kernel = [];
    kloset_version = [];
  };
}

abbrev a_disk : Disk
a_disk = record {
  unreadable = none;
  made = none;
  probe = ok (text "probe");
  probe_written = none;
  probe_synced = none;
  probe_closed = none;
  probe_part = [];
  probe_removed = some (plain (text "read-only file system"));
  saved_dir = none;
  saved = none;
  part = [];
}

abbrev down : Request → Exchange
down r = failed (text "connection refused")

abbrev up : Request → Exchange
up r = answered (record { status = 200; status_line = text "200 OK"; payload = [] })

abbrev some_rounds : List Round
some_rounds =
    (record { ended = false; http = down; ended_waiting = false })
    ∷ (record { ended = false; http = up; ended_waiting = false })
    ∷ []

abbrev key_flags : Flags
key_flags = record { pool_key = []; key = text "secret"; organization = text "org"; name = [] }

abbrev no_flags : Flags
no_flags = record { pool_key = []; key = []; organization = []; name = [] }

abbrev no_variables : Variables
no_variables = record { pool_key = []; key = none; organization = none }

abbrev test_boot : Flags → List Round → Files → Booted × Files
unfolding boot
test_boot flags rounds fs =
    boot encode decode as_is an_id as_is a_response test_config a_machine flags no_variables a_disk
      rounds fs

abbrev the_state : State
the_state = record { edge_id = 9 ∷ []; token = text "t" }

first_start : (test_boot key_flags some_rounds []).0 ≡ enrolled the_state
unfolding test_boot boot read enroll do_status http_status
first_start = refl

an_id-Utf8 : Utf8 (9 ∷ [])
an_id-Utf8 = cons (9 ∷ []) [] (one 9 (omega arith)) nil refl

a_token-Utf8 : Utf8 (text "t")
a_token-Utf8 = cons (text "t") [] (one 116 (omega arith)) nil refl

boot-boot_example :
    let b = test_boot key_flags some_rounds [] in
    test_boot no_flags [] b.1 ≡ (resumed the_state, b.1)
unfolding test_boot check_enroll_flags pool_enrollment_key_or_env
boot-boot_example =
    boot-boot encode decode as_is test_config (λ s i t. decode-encode s) an_id as_is a_response
      a_machine the_state key_flags no_variables a_disk some_rounds [] an_id-Utf8 a_token-Utf8
      (inr first_start) no_flags no_variables a_disk [] refl refl

abbrev a_send : (Request → Exchange) → Result EnrollResponse
unfolding enroll_into_organization
a_send http =
    enroll_into_organization a_response (record { base_url = []; token = [] }) a_machine http
      (7 ∷ []) (text "secret") (text "host")

enroll_loop-Ends_example :
    Ends encode decode as_is test_config a_send a_disk some_rounds []
      (enroll_loop encode decode as_is test_config a_send a_disk some_rounds [])
enroll_loop-Ends_example =
    enroll_loop-Ends encode decode as_is test_config a_send a_disk some_rounds []

abbrev some_files : Files
some_files = (text "edge.log", text "old") ∷ []

check_state_writable-TakesBack_example :
    TakesBack a_disk.probe a_disk.probe_removed some_files
      (check_state_writable a_disk some_files).1
unfolding read equal
check_state_writable-TakesBack_example = check_state_writable-TakesBack a_disk some_files refl

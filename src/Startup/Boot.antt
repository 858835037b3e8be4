-- ===== src/Startup/Boot.antt =====
-- main.go: `main` from the parsed flags to the identity, which it loads or enrolls for.
use plakar_edge.Base.{List, ◌++◌, Option, none, some, Bytes, text, is_empty, if◌then◌else◌}
use plakar_edge.Client.Fetch.{Files}
use plakar_edge.Client.{
  Error, message, Result, ok, err, Request, Exchange, Client, new_client, Decoded, enroll,
  enroll_into_pool,
}
use plakar_edge.Config.{Config}
use plakar_edge.Protocol.{Uuid, SystemInfo, EnrollResponse, edge_protocol_version}
use plakar_edge.Startup.{
  State, pool_enrollment_key_or_env, check_enroll_flags, Disk, check_state_writable, Loaded, loaded,
  missing, unusable, Booted, resumed, fatal, Round, load_state, enroll_loop,
}

-- The flags of the enrollment, and the variables that stand in for them (none: not set).
pub record Flags : Type 0 where
  pub pool_key : Bytes
  pub key : Bytes
  pub organization : Bytes
  pub name : Bytes

pub record Variables : Type 0 where
  pub pool_key : Bytes
  pub key : Option Bytes
  pub organization : Option Bytes

-- What is fixed for a process: the host name, its version, and the facts of the host.
pub record Machine : Type 0 where
  pub hostname : Bytes
  pub version : Bytes
  pub system_info : SystemInfo

-- The flag, or else the variable.
abbrev pub flag_or : Bytes → Option Bytes → Option Bytes
flag_or flag variable = if is_empty flag then variable else some flag

abbrev pub name_or : Bytes → Machine → Bytes
name_or name m = if is_empty name then m.hostname else name

module _ (decode_response : Bytes → Decoded EnrollResponse) (clt : Client) (m : Machine)
    (http : Request → Exchange) where
  -- `enrollIntoOrganization`
  unfoldable pub enroll_into_organization : (org : Uuid) (key name : Bytes) → Result EnrollResponse
  enroll_into_organization org key name = enroll http clt decode_response (record {
    organization_id = org;
    enrollment_key = key;
    name = name;
    hostname = m.hostname;
    protocol_version = edge_protocol_version;
    edge_version = m.version;
    system_info = m.system_info;
  })

  -- `enrollIntoPool`
  unfoldable pub enroll_pool : (key name : Bytes) → Result EnrollResponse
  enroll_pool key name = enroll_into_pool http clt decode_response (record {
    enrollment_key = key;
    name = name;
    hostname = m.hostname;
    protocol_version = edge_protocol_version;
    edge_version = m.version;
    system_info = m.system_info;
  })

module _ (encode : State → Bytes) (decode : Bytes → Result State) (uuid_string : Uuid → Bytes)
    (parse_uuid : Bytes → Result Uuid) (quote : Bytes → Bytes)
    (decode_response : Bytes → Decoded EnrollResponse) (cfg : Config) (m : Machine) where
  abbrev pub client : Client
  unfolding new_client
  client = new_client cfg.api_url

  -- The directory is tried before the control plane hears of the edge.
  abbrev pub if_writable : Disk → Option Error × Files → (Files → Booted × Files) → Booted × Files
  if_writable d (some e, fs) go = (
    fatal (
        text "state directory "
        ++ (quote cfg.state_dir ++ (text " is not writable: " ++ message e))),
    fs,
  )
  if_writable d (none, fs) go = go fs

  -- The first start, into a pool.
  unfoldable pub first_into_pool : Bytes → Bytes → Disk → List Round → Files → Booted × Files
  unfolding check_state_writable enroll_loop enroll_pool
  first_into_pool key name d rounds fs = if_writable d (check_state_writable d fs) (
      enroll_loop encode decode uuid_string cfg
        (λ http. enroll_pool decode_response client m http key name) d rounds)

  abbrev pub with_id : Result Uuid → Bytes → Bytes → Disk → List Round → Files → Booted × Files
  with_id (err e) key name d rounds fs =
      (fatal (text "-organization is not a valid id: " ++ message e), fs)
  with_id (ok org) key name d rounds fs = if_writable d (check_state_writable d fs) (
      enroll_loop encode decode uuid_string cfg
        (λ http. enroll_into_organization decode_response client m http org key name) d rounds)

  -- The first start, into an organization.
  unfoldable pub first_into_organization :
      Option Bytes → Option Bytes → Bytes → Disk → List Round → Files → Booted × Files
  unfolding check_state_writable enroll_loop enroll_into_organization
  first_into_organization none organization name d rounds fs = (
    fatal (
        text
          "no persisted identity and neither of -enroll or PLAKAR_EDGE_ENROLL_KEY were provided"),
    fs,
  )
  first_into_organization (some key) none name d rounds fs = (
    fatal (
        text
          "no persisted identity and neither of -organization or PLAKAR_EDGE_ORGANIZATION were provided"),
    fs,
  )
  first_into_organization (some key) (some organization) name d rounds fs =
      with_id (parse_uuid organization) key name d rounds fs

  -- The switch.
  abbrev pub identity :
      Loaded → (pool_key : Bytes) → Flags → Variables → Disk → List Round → Files → Booted × Files
  identity (loaded s) pool_key flags env d rounds fs = (resumed s, fs)
  identity (unusable e) pool_key flags env d rounds fs =
      (fatal (text "failed to read state: " ++ message e), fs)
  identity missing pool_key flags env d rounds fs =
      let name = name_or flags.name m in
      if is_empty pool_key
      then first_into_organization (flag_or flags.key env.key)
          (flag_or flags.organization env.organization) name d rounds fs
      else first_into_pool pool_key name d rounds fs

  abbrev pub checked : Option Error → Booted × Files → Files → Booted × Files
  checked (some e) rest fs = (fatal (message e), fs)
  checked none rest fs = rest

  -- `main`, from the flags to the identity.
  unfoldable pub boot : Flags → Variables → Disk → List Round → Files → Booted × Files
  unfolding check_enroll_flags pool_enrollment_key_or_env load_state first_into_pool
      first_into_organization
  boot flags env d rounds fs =
      if is_empty cfg.api_url
      then (fatal (text "-control-plane is required"), fs)
      else let pool_key = pool_enrollment_key_or_env flags.pool_key env.pool_key in
        checked (check_enroll_flags pool_key flags.key flags.organization)
          (identity (load_state encode decode uuid_string cfg d.unreadable fs) pool_key flags env d
            rounds fs)
          fs

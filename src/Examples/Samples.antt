-- ===== src/Examples/Samples.antt =====
-- A small agent, its handler and its decoding, and a source of three bytes.
use review_protocol.Prelude.{
  ℕ, zero, suc, ◌≤◌, ◌≡◌, refl, Result, ok, err, none, List, [], ◌∷◌, length, drop, arith,
}
use review_protocol.ProtocolError.{IoError, io_error, invalid_data, simple}
use review_protocol.Wire.{Bytes, RecvStream, SendStream}
use review_protocol.Types.Node.Observation.{reboot}
use review_protocol.Types.Node.Package.{InstallFields, install, proceed, done, rollback}
use review_protocol.Request.PackageReader.Reads.{received}
use review_protocol.Request.Installer.{Installer, read, finish}
use review_protocol.Request.NodeHandler.{NodeHandler, default_handler, NodeCodec}
use review_protocol.Request.Serve.{Agent}
use review_protocol.Server.Api.SendPackage.{AsyncRead}
use review_protocol.Server.Api.SendPackage.Succeeds.{Endless}

abbrev pub payload : List Bytes
payload = (1 ∷ 2 ∷ []) ∷ (3 ∷ []) ∷ []

abbrev pub behind : RecvStream
behind = ok (109 ∷ []) ∷ []

abbrev pub fields : InstallFields
fields = record {
  target = "roxyd";
  instance_number = none;
  version = "1.0.0";
  commit = "abc";
  size = 3;
  idempotency_key = "key";
  bootstrap_material = none;
  on_failure = rollback;
  bind_addrs = none;
  config_template = none;
  privilege_profile = none;
}

-- It reads one chunk of a payload, and counts its installs.
abbrev pub one_read : Installer ℕ
one_read = read (λ x. finish (ok done) 1)

unfoldable pub handler : NodeHandler ℕ
unfolding default_handler
handler = record default_handler {
  node_package_install_preflight = λ req h. (ok proceed, h);
  node_package_install = λ req h. one_read;
}

abbrev pub bad_data : IoError
bad_data = io_error invalid_data simple

abbrev pub undecodable : {T : Type 0} → Bytes → Result T IoError
undecodable body = err bad_data

abbrev pub split : Bytes → Result (ℕ × Bytes) IoError
split [] = err bad_data
split (code ∷ body) = ok (code, body)

abbrev pub codec : NodeCodec
codec = record {
  split_request = split;
  parse_service = undecodable;
  parse_network_interface = undecodable;
  parse_hostname = undecodable;
  parse_time_sync = undecodable;
  parse_logging = undecodable;
  parse_remote_access = undecodable;
  parse_power = λ body. ok reboot;
  parse_observation = undecodable;
  parse_version = undecodable;
  parse_package = λ body. ok (install fields);
  parse_enroll = undecodable;
}

abbrev pub idle : {F : Type 0} → SendStream F
idle = record { outcomes = []; sent = [] }

abbrev pub agent : Agent ℕ
agent = record { handler = 0; send = idle; recv = received payload behind }

abbrev pub take : ℕ → Bytes → Bytes
take zero xs = []
take (suc n) [] = []
take (suc n) (x ∷ xs) = x ∷ take n xs

pub length-take : (n : ℕ) (xs : Bytes) → length (take n xs) ≤ n
length-take zero xs = omega arith
length-take (suc n) [] = omega arith
length-take (suc n) (x ∷ xs) = omega (arith, length-take n xs)

abbrev pub zeros_of : ℕ → Bytes
zeros_of zero = []
zeros_of (suc n) = 0 ∷ zeros_of n

pub length-zeros_of : (n : ℕ) → length (zeros_of n) ≡ n
length-zeros_of zero = refl
length-zeros_of (suc n) = omega (arith, length-zeros_of n)

-- What a read gave, with a bound on it.
pub le_of_given :
    (want : ℕ) (given b : Bytes) (x : Result Bytes IoError)
    → length given ≤ want
    → x ≡ ok given
    → x ≡ ok b
    → length b ≤ want
le_of_given want given b x le p q = let same : given ≡ b = cc in rw (← same) le

-- A source that gives what it is asked for while it has it.
abbrev pub source : AsyncRead Bytes
source = record {
  read = λ want s. (ok (take want s), drop want s);
  read_le =
      λ want s b e. le_of_given want (take want s) b (ok (take want s)) (length-take want s) refl e;
}

-- A source that never ends.
abbrev pub zeros : AsyncRead (Unit {0})
zeros = record {
  read = λ want s. (ok (zeros_of want), s);
  read_le = λ want s b e.
      le_of_given want (zeros_of want) b (ok (zeros_of want)) (omega (arith, length-zeros_of want))
        refl e;
}

pub zeros-Endless : Endless zeros
zeros-Endless n s h = (zeros_of n, refl, omega (arith, length-zeros_of n))

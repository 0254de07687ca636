-- ===== src/Kernel/Settings.antt =====
-- Settings, secrets and the layout on disk: kernel/settings and kernel/paths/paths.go.
-- Viper, the environment, encoding/json and `filepath.Join` are parameters.
use hermi_nas.Prelude.{
  Option, String, [], codes, if◌then◌else◌, none, not, refl, some, str_eq, ◌∷◌, ◌≡◌,
}
use Prim.Native.String.{◌++◌ as append}
use hermi_nas.Prelude.Int.{ℤ}
use hermi_nas.Kernel.Errors
use hermi_nas.Kernel.Errors.{Error, Result, Bytes, ok, err, ◌>>=◌}

abbrev pub redacted : String
redacted = "***REDACTED***"

pub record SecretString : Type 0 where
  pub value : String

abbrev pub new_secret_string : String → SecretString
new_secret_string v = record { value = v }

-- `String`, `GoString` and `MarshalText`
unfoldable pub string : SecretString → String
string s = redacted

unfoldable pub go_string : SecretString → String
go_string s = append "settings.SecretString(" (append redacted ")")

unfoldable pub marshal_text : SecretString → Bytes
marshal_text s = codes redacted

unfoldable pub reveal : SecretString → String
reveal s = s.value

unfoldable pub marshal_json : (String → Result Bytes) → SecretString → Result Bytes
marshal_json marshal s = marshal redacted

unfoldable pub unmarshal_json : (Bytes → Result String) → Bytes → Result SecretString
unmarshal_json unmarshal text = do raw ← unmarshal text; ok (new_secret_string raw)

pub record RawSettings : Type 0 where
  pub environment : String
  pub http_port : ℤ
  pub grpc_port : ℤ
  pub data_dir : String
  pub llm_provider : String
  pub llm_api_key : String

pub record Settings : Type 0 where
  pub environment : String
  pub http_port : ℤ
  pub grpc_port : ℤ
  pub data_dir : String
  pub llm_provider : String
  pub llm_api_key : SecretString

abbrev wrap_error {ℓ} : {A : Type ℓ} → Errors.Code → Errors.Message → Result A → Result A
wrap_error code message (ok a) = ok a
wrap_error code message (err e) = err (Errors.wrap code message e)

-- With what reading the file and decoding it give, and the key of the environment.
unfoldable pub load : String → Result (Unit {0}) → Result RawSettings → String → Result Settings
load path read decoded env_key = do
  _ ←
      wrap_error Errors.not_found
        (record { format = "cannot read settings file %q"; args = Errors.str path ∷ [] }) read
  raw ←
      wrap_error Errors.invalid_argument (record { format = "invalid settings file"; args = [] })
        decoded
  ok (record {
    environment = raw.environment;
    http_port = raw.http_port;
    grpc_port = raw.grpc_port;
    data_dir = raw.data_dir;
    llm_provider = raw.llm_provider;
    llm_api_key = new_secret_string (if not (str_eq env_key "") then env_key else raw.llm_api_key);
  })

pub record Layout : Type 0 where
  pub root : String
  pub config_dir : String
  pub runtime_dir : String
  pub models_dir : String
  pub data_dir : String
  pub logs_dir : String

module _ (join : String → String → String) where
  unfoldable pub resolve : String → Layout
  resolve root = record {
    root = root;
    config_dir = join root "config";
    runtime_dir = join root "runtime";
    models_dir = join root "models";
    data_dir = join root "data";
    logs_dir = join root "logs";
  }

  -- With the home of the environment, and the working directory, if it can be found.
  unfoldable pub default : String → Option String → Layout
  unfolding resolve
  default home working_dir =
      if str_eq home ""
      then elim working_dir [ some wd ↦ resolve wd | none ↦ resolve "." ]
      else resolve home

-- A secret that is written as JSON and read back is the mark of a redacted one, where the codec
-- reads back what it writes: no file that the program writes has the secret.
marshal-unmarshal :
    (marshal : String → Result Bytes) (unmarshal : Bytes → Result String)
    → ((text : String) (bytes : Bytes) → marshal text ≡ ok bytes → unmarshal bytes ≡ ok text)
    → (s : SecretString) {bytes : Bytes} → marshal_json marshal s ≡ ok bytes
    → unmarshal_json unmarshal bytes ≡ ok (new_secret_string redacted)
unfolding marshal_json unmarshal_json
marshal-unmarshal marshal unmarshal law s {bytes} h = rw (law redacted bytes h) refl

-- ===== src/Tests/Handlers.antt =====
-- The theorems on the handlers, the services and the prompts, on a machine where everything works.
use slipgate.Prelude.{
  ◌≡◌, refl, true, List, [], ◌∷◌, ◌++◌, none, some, arith, Bytes, codes, bytes_eq, is_space,
  is_line, literal-IsLine, trim_space, decimal, lower_byte, to_lower, trim_end, trim_left,
  trim_right, false,
}
use slipgate.Prelude.Table.{load, store, delete, text_eq}
use slipgate.Config.{
  Config, is_empty, one_of, has_managed_service, is_dns_tunnel, is_direct_transport,
}
use slipgate.ClientConfig.{Library}
use slipgate.Host.{
  World, Env, full, piped, ok, err, plain, done, pure, raise, note, modify, noted, on_option,
  on_result, ◌>>=◌, attempt, each, gets, say, set_config,
}
use slipgate.Host.Machine.{run, command, output, succeeds, write_file, mkdir_all, rename, change}
use slipgate.Host.Format.{atoi, is_digit, scan_digits, scan_number, skip_plus}
use slipgate.Actions.{Args, SelectOption, get_arg}
use slipgate.Actions.Ids.{router_mode_options}
use slipgate.Actions.Inputs.{Spec, router_actions}
use slipgate.Actions.Registry.{Registry, empty, register, register_all, all_actions}
use slipgate.Actions.Registry.Order.{all_actions-register_all}
use slipgate.Prompt.{
  select, option_values, collect_inputs, collect_fields, is_asked, show_options, read_line,
  read_simple, chosen, sanitize, trim_newlines, numbered_option, named_option, equal_fold,
  option_at,
}
use slipgate.Prompt.Line.{read_loop, key_next, blank}
use slipgate.Prompt.Line.Zipper.{Zipper, line_of}
use slipgate.Prompt.Line.Refines.{edited, script, read_loop_refines, read_loop_typed}
use slipgate.Prompt.Answers.{select-IsOffered, collect_inputs-kept}
use slipgate.Service.{ServiceUnit, create, daemon_reload, get_unit_user, status, restart}
use slipgate.Service.UnitFile.{IsPlainUnit, get_unit_user-create}
use slipgate.SocksService.{write_creds_file, creds_file, own_creds}
use slipgate.SocksService.Stored.{write_creds_file-stored}
use slipgate.Keys.{Crypto}
use slipgate.Handlers.Packages.{Packages}
use slipgate.Handlers.Remove.{handle_tunnel_remove}
use slipgate.Handlers.{save_or_fail, save, save_to, config_path, dir_of, parent}
use slipgate.Handlers.Lifecycle.{or_fail}
use slipgate.Handlers.Router.{set_mode, enter_mode, new_mode, change_mode, handle_router_mode}
use slipgate.Routing.{switch_mode, restart_tunnel, ensure_router_running}
use slipgate.Handlers.Router.Mode.{handle_router_mode-mode}
use slipgate.Handlers.Reachable.{after}
use slipgate.Proxy.Socks5.{Credentials}
use slipgate.Creds.{read_creds_file}
use slipgate.Creds.RoundTrip.{password_of}
use slipgate.Config.Store.{get_user}
use slipgate.Tests.Clients.{users-IsPlain}
use slipgate.Tests.Config.{config, users-Unique}

instance abbrev machine : Env
machine = record {
  exec = λ w args. record { output = codes "active"; failure = none; files = w.files };
  write = λ w path content. full;
  denies = λ w e. none;
  typed = λ w question. piped (ok (codes "y\n"));
  executable = ok (codes "/usr/local/bin/slipgate");
  is_root = true;
  look_path = λ w name. some name;
  marshal = λ c. codes "{}";
  unmarshal = λ content. err (plain (codes "not JSON"));
  random = λ w i n. 0;
}

-- with an active tunnel
abbrev routed : Config
routed = record config {
  route = record { mode = codes "multi"; active = codes "t1"; default = codes "t1" };
}

abbrev world : World
world = record { config = routed; files = []; dirs = []; run_as = []; log = [] }

-- base64 that is the identity
abbrev library : Library
library = record {
  base64 = λ s. s;
  base64_decode = some;
  url_base64_decode = λ s. none;
  parse_seconds = λ s. none;
  split_port = λ s. none;
  server_ip = codes "203.0.113.7";
  base64_decode-base64 = λ s. refl;
}

abbrev crypto : Crypto
crypto = record { public_of = ok; random_bytes = λ w n. ok []; hex_error = λ s. [] }

abbrev packages : Packages
packages = record {
  ensure_installed = λ name. done;
  generate_self_signed = λ cert key host. done;
  refresh_routing = λ c. done;
}

abbrev no_message : {A : Type 0} → A → Bytes
no_message a = []

abbrev removing : Args
removing = (codes "tag", codes "t1") ∷ []

abbrev moding : Args
moding = (codes "mode", codes "multi") ∷ []

abbrev without : World
without = (handle_tunnel_remove removing world).1

abbrev in_mode : World
in_mode = (handle_router_mode moding without).1

abbrev to_single_mode : Args
to_single_mode = (codes "mode", codes "single") ∷ []

single-given : get_arg to_single_mode (codes "mode") ≡ codes "single"
unfolding get_arg load bytes_eq
single-given = refl

single-filled : is_empty (codes "single") ≡ false
unfolding is_empty
single-filled = refl

single-set : (handle_router_mode to_single_mode world).0 ≡ ok tt
unfolding handle_router_mode change_mode new_mode enter_mode or_fail switch_mode each restart_tunnel
    ensure_router_running status restart has_managed_service set_config set_mode save_or_fail save
    save_to config_path dir_of parent say note modify noted get_arg load bytes_eq is_empty one_of
    attempt on_result ◌>>=◌ pure raise done gets run command output write_file mkdir_all change
    is_dns_tunnel is_direct_transport trim_space trim_right trim_left trim_end is_space
single-set = refl

handle_router_mode-mode_example :
    (handle_router_mode to_single_mode world).1.config.route.mode ≡ codes "single"
handle_router_mode-mode_example =
    handle_router_mode-mode (codes "single") to_single_mode world single-given single-filled
      single-set

abbrev sides : Zipper
sides = record { before = codes "b"; after = codes "c" }

read_loop_refines_example :
    read_loop key_next (line_of sides) (27 ∷ codes "[Dx\r")
    ≡ edited (script key_next (27 ∷ codes "[Dx\r")) sides
read_loop_refines_example = read_loop_refines key_next (27 ∷ codes "[Dx\r") sides

read_loop_typed_example :
    read_loop key_next blank (codes "ann" ++ (13 ∷ codes "y")) ≡ ok (codes "ann")
read_loop_typed_example =
    read_loop_typed (codes "ann") (codes "y")
      ((omega arith, omega arith), ((omega arith, omega arith), ((omega arith, omega arith), tt)))

abbrev choices : List SelectOption
choices = record { value = codes "y"; label = codes "Yes" } ∷ []

select-y : (select (codes "Sure") choices world).0 ≡ ok (codes "y")
unfolding select ◌>>=◌ note modify noted show_options read_line read_simple on_option chosen
    is_empty sanitize trim_space trim_newlines numbered_option atoi named_option equal_fold is_digit
    scan_digits scan_number skip_plus pure raise done decimal bytes_eq is_space lower_byte to_lower
    trim_end trim_left trim_right option_at
select-y = refl

select-IsOffered_example : one_of (codes "y") (option_values choices) ≡ true
select-IsOffered_example = select-IsOffered (codes "Sure") choices world (codes "y") select-y

-- one input, which is given
abbrev asks_mode : Spec
asks_mode = record {
  id = codes "router.mode";
  name = codes "Set Router Mode";
  category = codes "router";
  inputs =
      record {
        key = codes "mode";
        label = codes "Mode";
        required = true;
        default = [];
        options = router_mode_options;
        depends_on = [];
        depends_on_values = [];
        cli_only = false;
      }
      ∷ [];
}

collected : (collect_inputs asks_mode moding world).0 ≡ ok moding
unfolding collect_inputs collect_fields is_asked get_arg load bytes_eq is_empty pure
collected = refl

given : is_empty (get_arg moding (codes "mode")) ≡ false
unfolding is_empty get_arg load bytes_eq
given = refl

collect_inputs-kept_example : get_arg moding (codes "mode") ≡ get_arg moding (codes "mode")
collect_inputs-kept_example =
    collect_inputs-kept asks_mode moding (codes "mode") world moding given collected

abbrev unit : ServiceUnit
unit = record {
  name = codes "slipgate-t1";
  description = codes "SlipGate DNSTT tunnel";
  exec_start = codes "/usr/local/bin/dnstt-server";
  exec_reload = [];
  user = codes "slipgate";
  group = codes "slipgate";
  after = codes "network.target";
  restart = codes "always";
  working_dir = [];
  environment = [];
}

unit-IsPlainUnit : IsPlainUnit unit
unfolding is_line is_space
unit-IsPlainUnit = record {
  description_line = literal-IsLine (codes "SlipGate DNSTT tunnel") refl;
  after_line = literal-IsLine (codes "network.target") refl;
  user_word = (refl, (refl, (refl, (refl, (refl, (refl, (refl, (refl, tt))))))));
}

created : (create unit world).0 ≡ ok tt
unfolding create daemon_reload run command noted write_file attempt ◌>>=◌ on_result done pure
created = refl

get_unit_user-create_example :
    (get_unit_user (codes "slipgate-t1") (create unit world).1).0 ≡ ok (codes "slipgate")
get_unit_user-create_example =
    get_unit_user-create (λ w args. refl) unit world unit-IsPlainUnit created

stored : (write_creds_file config.users world).0 ≡ ok tt
unfolding write_creds_file own_creds mkdir_all write_file rename change succeeds run command noted
    attempt ◌>>=◌ pure done
stored = refl

write_creds_file-stored_example :
    (content : Bytes) × ((creds : Credentials) × (load creds_file
          (write_creds_file config.users world).1.files
        ≡ some content)
      × (read_creds_file content ≡ some creds)
      × (load (codes "bob") creds ≡ password_of (get_user config (codes "bob"))))
write_creds_file-stored_example =
    write_creds_file-stored (λ w args. refl) config (codes "bob") world users-IsPlain users-Unique
      stored

-- the registry after the `init` of router.go
abbrev after_router : Registry
after_router = elim (register_all router_actions empty) [ none ↦ empty | some r ↦ r ]

router-registered : register_all router_actions empty ≡ some after_router
unfolding register_all register load store bytes_eq delete
router-registered = refl

all_actions-register_all_example : all_actions after_router ≡ router_actions
all_actions-register_all_example =
    all_actions-register_all router_actions after_router router-registered

-- ===== src/Tests/Plugins.antt =====
-- Runs of discovery for Lua and of the settings of a serial line.
use aura_old.Base.{
  ℕ, ◌≡◌, ◌≢◌, refl, true, false, none, some, All, List, [], ◌∷◌, ◌++◌, arith, map, ◌>>=◌,
}
use aura_old.ListHead.{plain}
use aura_old.Urpc.Object.{Object}
use aura_old.Urpc.Null.{NullInstance, null_open, null_discovery, null_call}
use aura_old.Urpc.Null.Calls.{null_call-hostname}
use aura_old.Urpc.Instance.{Instance, returned, l_urpc_open, l_urpc_discovery, l_urpc_call}
use aura_old.Hooks.{AuraHook, Registry, func_init, func_reg_list, l_aura_help}
use aura_old.Hooks.Chain.{Linked, AllNew, l_aura_help-func_reg_list}
use aura_old.Uart.{made, refused, make_settings}
use aura_old.Uart.Host.{host_made, str_to_uart_settings, str_to_uart_settings-made}
use aura_old.Uart.Fields.{s9600, s230400, seven, eight, even, odd, print, settings}
use aura_old.Uart.Print.{make_settings-print}
use aura_old.Tests.{granting, values, text}

null_call-hostname_example :
    (nl : NullInstance) × (i : Instance (plain Object) NullInstance) × (null_open values granting
        (text [] ∷ text (b't' ∷ []) ∷ [])
      ≡ some (some nl))
    × (l_urpc_open (plain Object) NullInstance granting (some nl) ≡ some (some i))
    × ((do
      (table, rows) ← returned (
          l_urpc_discovery granting
            (null_discovery (plain Object) i.objlist).1
            (null_discovery (plain Object) i.objlist).0)
      l_urpc_call (null_call values true granting 1 (b'h' ∷ 0 ∷ 7 ∷ []) []) table 0)
        ≡ some (text (b'h' ∷ []) ∷ [], 1))
null_call-hostname_example =
    null_call-hostname values true (plain Object) granting (λ n. refl) refl 1 (b'h' ∷ []) (7 ∷ [])
      (text [] ∷ text (b't' ∷ []) ∷ []) [] (omega arith) ((λ e. cc), tt)

abbrev port : List ℕ
port = b'/' ∷ b't' ∷ b't' ∷ b'y' ∷ []

make_settings-print_example :
    make_settings granting (print port s9600 eight even true)
    ≡ made (settings port s9600 eight even true)
make_settings-print_example =
    make_settings-print granting b'/' (b't' ∷ b't' ∷ b'y' ∷ []) s9600 eight even true
      ((λ e. cc), ((λ e. cc), ((λ e. cc), ((λ e. cc), tt)))) (λ n. refl)

-- The same behind a tag for the server's parser, and a speed that only the plugin's knows.
port_solid : All (λ b. b ≢ b':') port
port_solid = ((λ e. cc), ((λ e. cc), ((λ e. cc), ((λ e. cc), tt))))

fast_parsed :
    make_settings granting (print port s230400 seven odd false)
    ≡ made (settings port s230400 seven odd false)
fast_parsed =
    make_settings-print granting b'/' (b't' ∷ b't' ∷ b'y' ∷ []) s230400 seven odd false port_solid
      (λ n. refl)

str_to_uart_settings-made_example :
    str_to_uart_settings granting ((b'g' ∷ []) ++ (b':' ∷ print port s230400 seven odd false))
    ≡ host_made (record {
      tag = some (b'g' ∷ []);
      line = record (settings port s230400 seven odd false) { baud = none };
    })
str_to_uart_settings-made_example =
    str_to_uart_settings-made granting b'g' [] (print port s230400 seven odd false)
      (settings port s230400 seven odd false) ((λ e. cc), tt) refl fast_parsed

-- "p:9601"
abbrev odd_speed : List ℕ
odd_speed = b'p' ∷ b':' ∷ b'9' ∷ b'6' ∷ b'0' ∷ b'1' ∷ []

odd_speed-refused : make_settings granting odd_speed ≡ refused
unfolding make_settings
odd_speed-refused = refl

abbrev named : ℕ → AuraHook
named n = record { name = n ∷ []; args = none; help = none }

-- Right behind `aura_func_init`.
abbrev first_only : Registry
first_only = func_init (λ h. none) 0

first_only-Linked : Linked first_only.next first_only.base [] first_only.end
unfolding func_init
first_only-Linked = (refl, refl)

two_new : AllNew (first_only.base ∷ []) (1 ∷ 2 ∷ [])
unfolding func_init
two_new = (
  ((λ e. absurd (omega arith)), tt),
  (((λ e. absurd (omega arith)), ((λ e. absurd (omega arith)), tt)), tt),
)

l_aura_help-func_reg_list_example :
    l_aura_help named 3 (func_reg_list first_only (1 ∷ 2 ∷ []))
    ≡ some (map named (first_only.base ∷ 1 ∷ 2 ∷ []))
l_aura_help-func_reg_list_example =
    l_aura_help-func_reg_list named 3 first_only [] (1 ∷ 2 ∷ []) first_only-Linked two_new
      (omega arith)

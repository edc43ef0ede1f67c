-- ===== src/ComputerUse/Sandbox.antt =====
-- apps/computer_use_qa, workbench_app_cua/sandbox.py: the legacy CRM as a state machine, with its
-- two planted bugs. `str.strip` is an argument.
pub mod Histories
use ai_agents_enterprise.Prelude.{
  String, Bool, true, false, not, Option, none, some, is_some, or_else, List, [], ◌∷◌, ◌++◌, map,
  ◌==◌, ◌&&◌, ◌||◌, Dict, get, put, concat, join, if◌then◌else◌,
}

-- `State`
pub data Page : Type 0 where
  login dashboard customer_form success : Page

abbrev pub page_text : Page → String
page_text login = "login"
page_text dashboard = "dashboard"
page_text customer_form = "customer_form"
page_text success = "success"

pub data ElementKind : Type 0 where
  input button label_text : ElementKind

pub record Element : Type 0 where
  pub id : String
  pub kind : ElementKind
  pub label : String
  pub value : String

pub record Screen : Type 0 where
  pub page : Page
  pub elements : List Element
  pub error : Option String

pub data ActionKind : Type 0 where
  observing clicking typing : ActionKind

abbrev pub kind_text : ActionKind → String
kind_text observing = "observe"
kind_text clicking = "click"
kind_text typing = "type"

pub record Action : Type 0 where
  pub kind : ActionKind
  pub target : String
  pub value : String

pub record UiSession : Type 0 where
  pub page : Page
  pub fields : Dict String
  pub error : Option String

abbrev pub valid_user : String
valid_user = "admin"

abbrev pub valid_pass : String
valid_pass = "secret"

abbrev pub new_session : UiSession
new_session = record {
  page = login;
  fields = ("username", "") ∷ ("password", "") ∷ ("name", "") ∷ ("email", "") ∷ [];
  error = none;
}

-- `self.fields[key]`, for one of the four keys, which are always there.
abbrev pub field : String → UiSession → String
field key s = or_else (get s.fields key) ""

abbrev pub input_of : (id label : String) → UiSession → Element
input_of id label s = record { id = id; kind = input; label = label; value = field id s }

abbrev pub button_of : (id label : String) → Element
button_of id label = record { id = id; kind = button; label = label; value = "" }

abbrev pub text_of : (id label : String) → Element
text_of id label = record { id = id; kind = label_text; label = label; value = "" }

abbrev pub elements_of : Page → UiSession → List Element
elements_of login s =
    input_of "username" "Username" s
    ∷ input_of "password" "Password" s
    ∷ button_of "submit" "Sign in"
    ∷ []
elements_of dashboard s =
    text_of "greeting" (concat ("Welcom, " ∷ field "username" s ∷ []))
    ∷ button_of "new_customer" "New customer"
    ∷ button_of "logout" "Log out"
    ∷ []
elements_of customer_form s =
    input_of "name" "Name" s
    ∷ input_of "email" "Email" s
    ∷ button_of "save" "Save"
    ∷ button_of "cancel" "Cancel"
    ∷ []
elements_of success s =
    text_of "confirmation" "Customer saved" ∷ button_of "back" "Back to dashboard" ∷ []

unfoldable pub observe : UiSession → Screen
observe s = record { page = s.page; elements = elements_of s.page s; error = s.error }

-- `Screen.render`
abbrev pub render_element : Element → String
render_element e = elim e.kind [
  | button ↦ concat ("  <button id=" ∷ e.id ∷ ">" ∷ e.label ∷ "</button>" ∷ [])
  | input ↦ concat ("  " ∷ e.label ∷ ": [" ∷ e.value ∷ "] (id=" ∷ e.id ∷ ")" ∷ [])
  | label_text ↦ concat ("  " ∷ e.label ∷ [])
]

abbrev pub error_lines : Option String → List String
error_lines none = []
error_lines (some e) = if e == "" then [] else concat ("  ⚠ " ∷ e ∷ []) ∷ []

unfoldable pub render : Screen → String
render screen = join "\n" (
    concat ("[" ∷ page_text screen.page ∷ "]" ∷ [])
    ∷ (map render_element screen.elements ++ error_lines screen.error))

abbrev pub go : Page → UiSession → UiSession
go page s = record s { page = page }

abbrev pub complain : String → UiSession → UiSession
complain why s = record s { error = some why }

abbrev pub no_control : String → UiSession → UiSession
no_control target = complain (concat ("no such control here: " ∷ target ∷ []))

abbrev pub credentials_hold : UiSession → Bool
credentials_hold s = (field "username" s == valid_user) && (field "password" s == valid_pass)

module _ (strip : String → String) where
  abbrev pub has_name : UiSession → Bool
  has_name s = not (strip (field "name" s) == "")

  -- The branches of `_click` for each page.
  abbrev pub click_on : Page → String → UiSession → UiSession
  click_on login target s =
      if target == "submit"
      then (if credentials_hold s then go dashboard s else complain "Invalid credentials" s)
      else no_control target s
  click_on dashboard target s =
      if target == "new_customer"
      then record s { page = customer_form; fields = put (put s.fields "name" "") "email" "" }
      else if target == "logout"
      then go login s
      else no_control target s
  click_on customer_form target s =
      if target == "save"
      then (if has_name s then go success s else complain "Name is required" s)
      else if target == "cancel"
      then go dashboard s
      else no_control target s
  click_on success target s = if target == "back" then go dashboard s else no_control target s

  unfoldable pub click : String → UiSession → UiSession
  click target s = click_on s.page target s

  abbrev pub type_in : (target value : String) → UiSession → UiSession
  type_in target value s =
      if is_some (get s.fields target)
      then record s { fields = put s.fields target value }
      else complain (concat ("no such field: " ∷ target ∷ [])) s

  -- What `act` does to the session.
  unfoldable pub perform : Action → UiSession → UiSession
  perform a s =
      let s' = record s { error = none } in
      elim a.kind [
        | observing ↦ s'
        | typing ↦ type_in a.target a.value s'
        | clicking ↦ click a.target s'
      ]

  unfoldable pub act : Action → UiSession → Screen × UiSession
  act a s = let s' = perform a s in (observe s', s')

  -- A sequence of actions.
  unfoldable pub act_all : List Action → UiSession → UiSession
  act_all [] s = s
  act_all (a ∷ actions) s = act_all actions (perform a s)

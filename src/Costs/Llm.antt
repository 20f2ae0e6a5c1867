-- ===== src/Costs/Llm.antt =====
-- `LLMClient.complete` of adapters/clients/llm.py. Anthropic's client is a parameter: what it answers
-- to a request, or none where it raises.
use Prim.Native.String.{◌++◌ as append_text}
use adam_abundance.Base.{
  ℕ, suc, ◌/◌, String, Bool, true, false, Option, none, some, List, [], ◌∷◌, length, if◌then◌else◌,
  or_else, str_eq, Exec, Result, ℤ,
}
use adam_abundance.Base.Text.{codes, distinct}
use adam_abundance.Memory.Store.{StoreError}
use adam_abundance.Governor.Caps.{SpendMetric}
use adam_abundance.Governor.Budget.{Governor, within_caps, charge}
use adam_abundance.Costs.Pricing.{Tokens, compute_llm_micros}

-- The input of a tool is JSON, as text.
pub data Block : Type 0 where
  text_block : String → List (Option String) → Block
  tool_use : String → String → Block
  server_tool_use other_block : Block

-- `usage`, where it is there; `server` is its `server_tool_use` with the searches that it reports.
pub record Usage : Type 0 where
  pub input_tokens : Option ℕ
  pub output_tokens : Option ℕ
  pub cache_read_input_tokens : Option ℕ
  pub cache_creation_input_tokens : Option ℕ
  pub server : Option (Option ℕ)

pub record Reply : Type 0 where
  pub content : List Block
  pub usage : Option Usage

pub record Call : Type 0 where
  pub system : String
  pub prompt : String
  pub model : Option String
  pub max_tokens : ℕ
  pub tools : List String
  pub agent : String

pub record Anthropic : Type 0 where
  pub default_model : String
  pub factcheck_model : String
  pub installed : Bool
  pub key : Option String
  pub create : String → Call → Option Reply

pub record LlmResult : Type 0 where
  pub text : String
  pub input_tokens : ℕ
  pub output_tokens : ℕ
  pub web_search_requests : ℕ
  pub micros : ℕ
  pub citations : List String
  pub tool_uses : List (String × String)

pub data LlmError : Type 0 where
  unavailable : String → LlmError
  refused_by_store : StoreError → LlmError
  api_error : LlmError

abbrev nonempty_or : Option String → String → String
nonempty_or none d = d
nonempty_or (some m) d = if str_eq m "" then d else m

abbrev pub model_of : Anthropic → Call → String
model_of c call = nonempty_or call.model c.default_model

abbrev pub text_of : List Block → String
text_of [] = ""
text_of (text_block s cs ∷ bs) = append_text s (text_of bs)
text_of (tool_use n i ∷ bs) = text_of bs
text_of (server_tool_use ∷ bs) = text_of bs
text_of (other_block ∷ bs) = text_of bs

abbrev urls_before : List (Option String) → List String → List String
urls_before [] rest = rest
urls_before (none ∷ cs) rest = urls_before cs rest
urls_before (some u ∷ cs) rest =
    let more = urls_before cs rest in if str_eq u "" then more else u ∷ more

abbrev pub citations_of : List Block → List String
citations_of [] = []
citations_of (text_block s cs ∷ bs) = urls_before cs (citations_of bs)
citations_of (tool_use n i ∷ bs) = citations_of bs
citations_of (server_tool_use ∷ bs) = citations_of bs
citations_of (other_block ∷ bs) = citations_of bs

abbrev pub tool_uses_of : List Block → List (String × String)
tool_uses_of [] = []
tool_uses_of (text_block s cs ∷ bs) = tool_uses_of bs
tool_uses_of (tool_use n i ∷ bs) = (n, i) ∷ tool_uses_of bs
tool_uses_of (server_tool_use ∷ bs) = tool_uses_of bs
tool_uses_of (other_block ∷ bs) = tool_uses_of bs

abbrev pub searches_in : List Block → ℕ
searches_in [] = 0
searches_in (text_block s cs ∷ bs) = searches_in bs
searches_in (tool_use n i ∷ bs) = searches_in bs
searches_in (server_tool_use ∷ bs) = suc (searches_in bs)
searches_in (other_block ∷ bs) = searches_in bs

-- The count that the server reports, where it reports one that is not zero.
abbrev pub reported : Option (Option ℕ) → ℕ → ℕ
reported (some (some (suc n))) counted = suc n
reported _ counted = counted

abbrev no_usage : Usage
no_usage = record {
  input_tokens = none;
  output_tokens = none;
  cache_read_input_tokens = none;
  cache_creation_input_tokens = none;
  server = none;
}

abbrev tokens_in : Usage → ℕ → Tokens
tokens_in u counted = record {
  input = or_else u.input_tokens 0;
  output = or_else u.output_tokens 0;
  cache_creation = or_else u.cache_creation_input_tokens 0;
  cache_read = or_else u.cache_read_input_tokens 0;
  web_search_requests = reported u.server counted;
}

-- The tokens that a reply is charged for.
unfoldable pub tokens_of : Reply → Tokens
tokens_of r = tokens_in (or_else r.usage no_usage) (searches_in r.content)

-- The tokens that the check beforehand reckons with.
abbrev pub rough_tokens : Call → Tokens
rough_tokens call = record {
  input = length (codes call.prompt) / 3;
  output = call.max_tokens;
  cache_creation = 0;
  cache_read = 0;
  web_search_requests = 0;
}

abbrev pub result_of : String → Reply → LlmResult
result_of model r = record {
  text = text_of r.content;
  input_tokens = (tokens_of r).input;
  output_tokens = (tokens_of r).output;
  web_search_requests = (tokens_of r).web_search_requests;
  micros = compute_llm_micros model (tokens_of r);
  citations = distinct (citations_of r.content);
  tool_uses = tool_uses_of r.content;
}

module _ (c : Anthropic) (today : ℕ) (call : Call) where
  abbrev pub on_reply : Option Reply → Exec Governor LlmError LlmResult
  on_reply none g = (Result.err api_error, g)
  on_reply (some r) g = (
    Result.ok (result_of (model_of c call) r),
    charge today SpendMetric.llm_micros (ℤ.pos (compute_llm_micros (model_of c call) (tokens_of r)))
        call.agent g,
  )

  abbrev pub with_key : Option String → Exec Governor LlmError LlmResult
  with_key none g = (Result.err (unavailable "ANTHROPIC_API_KEY not configured"), g)
  with_key (some k) g = on_reply (c.create (model_of c call) call) g

  abbrev pub send : Exec Governor LlmError LlmResult
  send g =
      if c.installed
      then with_key c.key g
      else (Result.err (unavailable "anthropic SDK not installed"), g)

  abbrev pub checked : Result StoreError Bool → Exec Governor LlmError LlmResult
  checked (Result.err e) g = (Result.err (refused_by_store e), g)
  checked (Result.ok false) g =
      (Result.err (unavailable "llm_micros daily cap would be exceeded"), g)
  checked (Result.ok true) g = send g

  unfoldable pub complete : Exec Governor LlmError LlmResult
  unfolding tokens_of
  complete g =
      let rough = compute_llm_micros (model_of c call) (rough_tokens call) in
      let (r, g') = within_caps today SpendMetric.llm_micros rough g in checked r g'

abbrev pub search_call : Anthropic → String → Option String → String → ℕ → Call
search_call c query model agent max_tokens = record {
  system =
      "You are a fact verification assistant. Use web search to confirm or refute the user's statement. Cite sources. Answer starting with VERIFIED or UNVERIFIED.";
  prompt = query;
  model = some (nonempty_or model c.factcheck_model);
  max_tokens = max_tokens;
  tools = "web_search" ∷ [];
  agent = agent;
}

unfoldable pub web_search :
    Anthropic → ℕ → String → Option String → String → ℕ → Exec Governor LlmError LlmResult
unfolding complete
web_search c today query model agent max_tokens =
    complete c today (search_call c query model agent max_tokens)

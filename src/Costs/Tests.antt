-- ===== src/Costs/Tests.antt =====
-- A concrete call of the language model.
use adam_abundance.Base.{◌≤◌, ◌≡◌, refl, true, none, some, [], ◌∷◌, arith}
use adam_abundance.Governor.Caps.{SpendMetric, default_caps}
use adam_abundance.Governor.CapsConfig.{resolve_caps, overlay}
use adam_abundance.Governor.Caps.{per_day}
use adam_abundance.Governor.Budget.{Governor, spent, within_caps}
use adam_abundance.Costs.Pricing.{compute_llm_micros, price_per_million}
use adam_abundance.Costs.Llm.{Reply, Call, Anthropic, text_block, tokens_of, result_of, complete}
use adam_abundance.Costs.Charged.{Accounted, complete-Accounted, complete-within_cap}

-- A dated model at its price: a thousand tokens in, two hundred out, and one search.
haiku_cost :
    compute_llm_micros "claude-haiku-3-5-20241022" (record {
      input = 1000;
      output = 200;
      cache_creation = 10;
      cache_read = 5;
      web_search_requests = 1;
    })
    ≡ 11610
unfolding compute_llm_micros price_per_million
haiku_cost = refl

abbrev governor : Governor
governor = record {
  caps = default_caps;
  eff_caps = none;
  setting = record { row = none; readable = true };
  ledger = [];
  memory = record { entries = []; next_id = 1 };
}

abbrev reply : Reply
reply = record {
  content = text_block "VERIFIED" (some "a.com" ∷ []) ∷ [];
  usage = some (record {
    input_tokens = some 2;
    output_tokens = some 40;
    cache_read_input_tokens = none;
    cache_creation_input_tokens = some 0;
    server = none;
  });
}

abbrev client : Anthropic
client = record {
  default_model = "claude-sonnet-5";
  factcheck_model = "claude-sonnet-5";
  installed = true;
  key = some "k";
  create = λ m c. some reply;
}

abbrev call : Call
call = record {
  system = "";
  prompt = "Is it true?";
  model = none;
  max_tokens = 100;
  tools = [];
  agent = "research";
}

complete-Accounted_example : Accounted client 7 call [] (complete client 7 call governor)
complete-Accounted_example = complete-Accounted client 7 call governor

complete-within_cap_example :
    spent 7 SpendMetric.llm_micros (complete client 7 call governor).1.ledger ≤ 20_000_000
unfolding per_day resolve_caps overlay tokens_of complete within_caps compute_llm_micros
    price_per_million
complete-within_cap_example =
    complete-within_cap client 7 call governor 20_000_000 reply (result_of "claude-sonnet-5" reply)
      refl refl (omega arith) (omega arith) refl refl refl refl

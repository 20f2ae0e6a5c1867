-- ===== src/Costs.antt =====
-- What a call of a language model costs (costs.py, pricing.py), and the client that charges it
-- (adapters/clients/llm.py).
pub mod Pricing
pub mod Llm
pub mod Charged
mod Tests

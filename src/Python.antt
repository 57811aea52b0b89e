-- ===== src/Python.antt =====
-- The Python values and built-ins that the event payloads of contracts/blackboard_event.py use:
-- JSON values (a payload is a dict with text keys), exceptions, `==`, `int`, `float`, `str`.
pub mod Result
pub mod Value
pub mod Text
pub mod Json

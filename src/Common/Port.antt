-- ===== src/Common/Port.antt =====
-- The codes that the ports return, firmware/ports: `port_err_t`.
pub data PortErr : Type 0 where
  port_ok invalid_arg not_found io_error not_supported port_busy : PortErr

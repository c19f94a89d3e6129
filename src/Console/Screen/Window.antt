-- ===== src/Console/Screen/Window.antt =====
-- cga_putc moves the window over the paper.
